-- ===== src/Blackbox/Trace.antt =====
-- src/blackbox.rs: what the steps and the assertions of a test case ask of the system.
use axterminator.Prelude.{
  ℕ, suc, ◌+◌, ◌*◌, ◌≤◌, ◌<◌, ◌≡◌, ◌≢◌, String, Bool, true, false, none, some, List, [], ◌∷◌, codes,
  is_infix, length, leb, ◌-◌, ◌/◌,
}
use axterminator.Blackbox.{TestStep, TestAssertion, TestCase, TestResult, Exit, System, ms}

module _ (sys : System) where
  open sys use {World, time, sleep, is_running, open_app, capture_screen, find_text}

  -- The text is found in a world, and the world after the search.
  abbrev pub Found : String → World → Type 0
  Found query w = (text : String) × ((find_text query w).0 ≡ some text)

  abbrev pub Missing : String → World → Type 0
  Missing query w = (find_text query w).0 ≡ none

  abbrev pub searched : String → World → World
  searched query w = (find_text query w).1

  -- A wait for a text: it is searched for every 50 ms, until a search finds it or ends at the
  -- deadline or later.
  pub data Waits (query : String) (deadline : ℕ) : World → Bool → World → Type 0 where
    seen : {w : World} → Found query w → Waits query deadline w true (searched query w)
    late :
        {w : World}
        → Missing query w
        → deadline ≤ time (searched query w)
        → Waits query deadline w false (searched query w)
    again :
        {w w' : World} {done : Bool}
        → Missing query w
        → time (searched query w) < deadline
        → Waits query deadline (sleep (50 * ms) (searched query w)) done w'
        → Waits query deadline w done w'

  -- A step in a world is fulfilled or not, and leads to another world.
  pub data Went : TestStep → World → Bool → World → Type 0 where
    running :
        {app : String} {w : World}
        → (is_running app w).0 ≡ true
        → Went (TestStep.launch app) w true (is_running app w).1
    opened :
        {app : String} {w : World}
        → (is_running app w).0 ≡ false
        → (open_app app (is_running app w).1).0 ≡ Exit.success
        → Went (TestStep.launch app) w true (sleep (500 * ms) (open_app app (is_running app w).1).1)
    not_opened :
        {app : String} {w : World}
        → (is_running app w).0 ≡ false
        → (open_app app (is_running app w).1).0 ≢ Exit.success
        → Went (TestStep.launch app) w false (open_app app (is_running app w).1).1
    to_click :
        {query : String} {w : World}
        → Found query w
        → Went (TestStep.find_and_click query) w true (searched query w)
    no_click :
        {query : String} {w : World}
        → Missing query w
        → Went (TestStep.find_and_click query) w false (searched query w)
    to_type :
        {query text : String} {w : World}
        → Found query w
        → Went (TestStep.find_and_type query text) w true (searched query w)
    no_type :
        {query text : String} {w : World}
        → Missing query w
        → Went (TestStep.find_and_type query text) w false (searched query w)
    waited :
        {query : String} {timeout_ms : ℕ} {w w' : World} {done : Bool}
        → Waits query (time w + timeout_ms * ms) w done w'
        → Went (TestStep.wait_for_element query timeout_ms) w done w'
    captured :
        {path : String} {w : World}
        → (capture_screen path w).0 ≡ Exit.success
        → Went (TestStep.screenshot path) w true (capture_screen path w).1
    not_captured :
        {path : String} {w : World}
        → (capture_screen path w).0 ≢ Exit.success
        → Went (TestStep.screenshot path) w false (capture_screen path w).1

  -- The steps from a world on, with the numbers of those fulfilled and of those not.
  pub data Performed : List TestStep → World → ℕ → ℕ → World → Type 0 where
    finished : {w : World} → Performed [] w 0 0 w
    fulfilled :
        {s : TestStep} {steps : List TestStep} {w w1 w' : World} {n m : ℕ}
        → Went s w true w1
        → Performed steps w1 n m w'
        → Performed (s ∷ steps) w (suc n) m w'
    missed :
        {s : TestStep} {steps : List TestStep} {w w1 w' : World} {n m : ℕ}
        → Went s w false w1
        → Performed steps w1 n m w'
        → Performed (s ∷ steps) w n (suc m) w'

  abbrev pub query_of : TestAssertion → String
  query_of (TestAssertion.element_exists query) = query
  query_of (TestAssertion.element_has_text query expected) = query
  query_of (TestAssertion.element_not_exists query) = query
  query_of (TestAssertion.screen_contains needle) = needle

  abbrev pub Holds : TestAssertion → World → Type 0
  Holds (TestAssertion.element_exists query) w = Found query w
  Holds (TestAssertion.element_has_text query expected) w =
      (text : String) × ((find_text query w).0 ≡ some text)
      × (is_infix (codes expected) (codes text) ≡ true)
  Holds (TestAssertion.element_not_exists query) w = Missing query w
  Holds (TestAssertion.screen_contains needle) w = Found needle w

  -- An assertion in a world holds or not.
  abbrev pub Judges : TestAssertion → World → Bool → Type 0
  Judges a w true = Holds a w
  Judges a w false = ¬ Holds a w

  -- The assertions from a world on, each with a search, and the number of those that do not hold.
  pub data Checked : List TestAssertion → World → ℕ → World → Type 0 where
    all_checked : {w : World} → Checked [] w 0 w
    holding :
        {a : TestAssertion} {assertions : List TestAssertion} {w w' : World} {k : ℕ}
        → Holds a w
        → Checked assertions (searched (query_of a) w) k w'
        → Checked (a ∷ assertions) w k w'
    not_holding :
        {a : TestAssertion} {assertions : List TestAssertion} {w w' : World} {k : ℕ}
        → (¬ Holds a w)
        → Checked assertions (searched (query_of a) w) k w'
        → Checked (a ∷ assertions) w (suc k) w'

  -- What a run of a test case from a world on comes to.
  pub record Judged (c : TestCase) (w : World) (q : TestResult × World) : Type 0 where
    pub fulfilled : ℕ
    pub missed : ℕ
    pub not_holding : ℕ
    pub between : World
    pub performed : Performed c.steps w fulfilled missed between
    pub checked : Checked c.assertions between not_holding q.1
    pub all_steps : fulfilled + missed ≡ length c.steps
    pub completed : q.0.steps_completed ≡ fulfilled
    pub failed : length q.0.failures ≡ missed + not_holding
    pub passed : q.0.passed ≡ leb (length q.0.failures) 0
    pub elapsed : q.0.elapsed_ms ≡ (time q.1 - time w) / ms
