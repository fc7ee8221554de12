-- ===== src/CrossApp/Detect.antt =====
-- src/cross_app.rs: the mining of the log for repeated sequences, and what is made of one.
use axterminator.Prelude.{
  ℕ, zero, suc, ◌+◌, ◌-◌, ◌/◌, ◌^◌, ◌%◌, min, String, Bool, true, false, ◌&&◌, ◌||◌, none, some,
  List, [], ◌∷◌, ◌++◌, map, if◌then◌else◌, str_eq, length, take, get_last?, ltb, leb, format, ◌==◌,
  codes,
}
use axterminator.CrossApp.{AppTransition, CrossAppTracker, full_app_chain, saturating_add}

pub record DetectedWorkflow : Type 0 where
  pub name : String
  pub apps : List String
  pub pattern : List AppTransition
  pub frequency : ℕ
  pub avg_duration_ms : ℕ

pub record AutomationStep : Type 0 where
  pub app : String
  pub description : String
  pub step_index : ℕ

unfoldable pub names_eq : List String → List String → Bool
names_eq [] [] = true
names_eq (a ∷ as') (b ∷ bs) = str_eq a b && names_eq as' bs
names_eq _ _ = false

module _ {ℓ} {A : Type ℓ} where
  abbrev pub any : (A → Bool) → List A → Bool
  any p [] = false
  any p (x ∷ xs) = p x || any p xs

  -- `slice::windows`, of a positive size.
  unfoldable pub windows : ℕ → List A → List (List A)
  windows n [] = []
  windows n (x ∷ xs) =
      let rest = windows n xs in if leb n (length (x ∷ xs)) then take n (x ∷ xs) ∷ rest else []

  -- A stable sort; `before y x` is that `y` goes strictly before `x`.
  unfoldable pub insert_by : (A → A → Bool) → A → List A → List A
  insert_by before x [] = x ∷ []
  insert_by before x (y ∷ ys) =
      let rest = insert_by before x ys in if before y x then y ∷ rest else x ∷ y ∷ ys

  unfoldable pub sort_by : (A → A → Bool) → List A → List A
  sort_by before [] = []
  sort_by before (x ∷ xs) = insert_by before x (sort_by before xs)

-- `*entry(seq).or_insert(0) += 1`, on `u32`.
unfoldable pub add_one : ℕ → ℕ
add_one n = (n + 1) % 2 ^ 32

unfoldable pub bump : List String → List (List String × ℕ) → List (List String × ℕ)
bump seq [] = (seq, add_one 0) ∷ []
bump seq ((key, n) ∷ es) =
    if names_eq key seq then (key, add_one n) ∷ es else (key, n) ∷ bump seq es

unfoldable pub count_all : List (List String) → List (List String × ℕ) → List (List String × ℕ)
count_all [] counts = counts
count_all (chunk ∷ chunks) counts = count_all chunks (bump chunk counts)

unfoldable pub count_subsequences : List String → ℕ → List (List String × ℕ)
count_subsequences seq window = count_all (windows window seq) []

unfoldable pub is_subsequence_of_existing : List String → List DetectedWorkflow → Bool
is_subsequence_of_existing seq existing =
    any (λ (wf : DetectedWorkflow). any (λ w. names_eq w seq) (windows (length seq) wf.apps))
      existing

-- The order of texts, which is that of their code points, and that of lists of texts.
unfoldable pub codes_lt : List ℕ → List ℕ → Bool
codes_lt _ [] = false
codes_lt [] (b ∷ bs) = true
codes_lt (a ∷ as') (b ∷ bs) = ltb a b || (a == b && codes_lt as' bs)

unfoldable pub names_lt : List String → List String → Bool
names_lt _ [] = false
names_lt [] (b ∷ bs) = true
names_lt (a ∷ as') (b ∷ bs) = codes_lt (codes a) (codes b) || (str_eq a b && names_lt as' bs)

-- Higher frequency first, then lexicographic.
unfoldable pub candidate_before : List String × ℕ → List String × ℕ → Bool
candidate_before (a, ca) (b, cb) = ltb cb ca || (ca == cb && names_lt a b)

unfoldable pub more_frequent : DetectedWorkflow → DetectedWorkflow → Bool
more_frequent a b = ltb b.frequency a.frequency

unfoldable pub join : String → List String → String
join sep [] = ""
join sep (s ∷ []) = s
join sep (s ∷ t ∷ ss) = format (s ∷ sep ∷ join sep (t ∷ ss) ∷ [])

-- The names of a window of transitions, against those of a workflow.
unfoldable pub zip_all_eq : List String → List String → Bool
zip_all_eq [] bs = true
zip_all_eq (a ∷ as') [] = true
zip_all_eq (a ∷ as') (b ∷ bs) = str_eq a b && zip_all_eq as' bs

unfoldable pub run_matches : List String → List AppTransition → Bool
run_matches apps [] = zip_all_eq [] apps
run_matches apps (t ∷ ts) =
    zip_all_eq (t.from_app ∷ map (λ (t : AppTransition). t.to_app) (t ∷ ts)) apps

unfoldable pub find_or_default : List String → List (List AppTransition) → List AppTransition
find_or_default apps [] = []
find_or_default apps (w ∷ ws) = if run_matches apps w then w else find_or_default apps ws

unfoldable pub find_first_occurrence : CrossAppTracker → List String → List AppTransition
find_first_occurrence t apps =
    let n = length apps in
    if ltb n 2 || ltb (length t.transitions) (n - 1)
    then []
    else find_or_default apps (windows (n - 1) t.transitions)

unfoldable pub run_duration : List AppTransition → ℕ
run_duration [] = 0
run_duration (first ∷ ts) = elim (get_last? (first ∷ ts)) [
  | none ↦ 0
  | some last ↦ last.timestamp - first.timestamp
]

-- The total and the count of the durations.
unfoldable pub add_durations : List String → List (List AppTransition) → ℕ → ℕ → ℕ × ℕ
add_durations apps [] total count = (total, count)
add_durations apps (w ∷ ws) total count =
    let hit = run_matches apps w in
    add_durations apps ws (if hit then saturating_add total (run_duration w) else total)
      (if hit then (count + 1) % 2 ^ 64 else count)

unfoldable pub avg_workflow_duration : CrossAppTracker → List String → ℕ
avg_workflow_duration t apps =
    let n = length apps in
    if ltb n 2 || ltb (length t.transitions) (n - 1)
    then 0
    else (let (total, count) = add_durations apps (windows (n - 1) t.transitions) 0 0 in
        if count == 0 then 0 else total / count)

unfoldable pub build_workflow : CrossAppTracker → List String → ℕ → DetectedWorkflow
build_workflow t seq frequency = record {
  name = join " → " seq;
  apps = seq;
  pattern = find_first_occurrence t seq;
  frequency = frequency;
  avg_duration_ms = avg_workflow_duration t seq;
}

module _ (t : CrossAppTracker) (min_frequency : ℕ) where
  -- One turn of the loop over the candidates.
  unfoldable pub consider : List String × ℕ → List DetectedWorkflow → List DetectedWorkflow
  consider (seq, freq) results =
      if ltb freq min_frequency
      then results
      else if is_subsequence_of_existing seq results
      then results
      else results ++ (build_workflow t seq freq ∷ [])

  unfoldable pub consider_all :
      List (List String × ℕ) → List DetectedWorkflow → List DetectedWorkflow
  consider_all [] results = results
  consider_all (c ∷ cs) results = consider_all cs (consider c results)

  -- The loop over the windows, from one on, so many of them.
  unfoldable pub scan : ℕ → ℕ → List DetectedWorkflow → List DetectedWorkflow
  scan zero window results = results
  scan (suc n) window results =
      let candidates = count_subsequences (full_app_chain t) window in
      scan n (suc window) (consider_all (sort_by candidate_before candidates) results)

  unfoldable pub detect_workflows : List DetectedWorkflow
  detect_workflows =
      let app_seq = full_app_chain t in
      if ltb (length t.transitions) 2
      then []
      else if ltb (length app_seq) 3
      then []
      else sort_by more_frequent (scan (min (length app_seq) 6 - 2) 3 [])

unfoldable pub automation_description : String → ℕ → ℕ → String
automation_description app zero total = format ("Read/extract data from " ∷ app ∷ [])
automation_description app (suc i) total =
    if suc i == total - 1
    then format ("Write/inject result into " ∷ app ∷ [])
    else format ("Transform and pass context through " ∷ app ∷ [])

unfoldable pub suggest_from : ℕ → ℕ → List String → List AutomationStep
suggest_from i total [] = []
suggest_from i total (app ∷ apps) =
    record { app = app; description = automation_description app i total; step_index = i }
    ∷ suggest_from (suc i) total apps

unfoldable pub suggest_automation : DetectedWorkflow → List AutomationStep
suggest_automation workflow = suggest_from 0 (length workflow.apps) workflow.apps
