-- ===== src/Security/Rate.antt =====
-- src/mcp/security.rs, `RateLimiter::check`: how many calls of a sequence are admitted.
use axterminator.Prelude.{
  ℕ, zero, suc, ◌+◌, ◌-◌, ◌^◌, ◌≤◌, ◌<◌, ◌≡◌, refl, ap, ◌∙◌, Bool, List, [], ◌∷◌, ◌++◌, arith, min,
  length, if◌then◌else◌, leb, All, All-replicate, replicate, ap₂, length-replicate,
}
use axterminator.Security.{RateLimiter, Instants, instant, check}

-- Calls at the given clock readings: how many are admitted, and the limiter afterwards.
abbrev pub calls : List Instants → RateLimiter → ℕ × RateLimiter
calls [] r = (0, r)
calls (t ∷ ts) r =
    let (passed, r1) = check t r in let (n, r2) = calls ts r1 in ((if passed then suc n else n), r2)

-- One call before a second has passed since the window opened, and one later.
check_inside :
    (t : Instants) (r : RateLimiter)
    → t.elapsed_at < r.window_start + 1000000000
    → r.count + 1 < 2 ^ 32
    → check t r ≡ (leb (r.count + 1) r.limit_per_second, record r { count = r.count + 1 })
unfolding check
check_inside t r h k = ground arith

check_later :
    (t : Instants) (r : RateLimiter)
    → r.window_start + 1000000000 ≤ t.elapsed_at
    → check t r ≡ (leb 1 r.limit_per_second, record r { window_start = t.restart_at; count = 1 })
unfolding check
check_later t r h = ground arith

-- Of any number of calls (fewer than 2^32 in all) in the window that is open, exactly as many are
-- admitted as the limit leaves room for; the window stays open.
pub calls_window :
    (ts : List Instants) (r : RateLimiter)
    → All (λ (t : Instants). t.elapsed_at < r.window_start + 1000000000) ts
    → r.count + length ts < 2 ^ 32
    → let (n, r') = calls ts r in
      (n ≡ min (length ts) (r.limit_per_second - r.count))
      × (r'.count ≡ r.count + length ts)
      × (r'.window_start ≡ r.window_start)
      × (r'.limit_per_second ≡ r.limit_per_second)
calls_window [] r h k = omega arith
calls_window (t ∷ ts) r h k =
    let r1 : RateLimiter = record r { count = r.count + 1 } in
    let ih = calls_window ts r1 h.1 (omega arith) in
    let e : check t r ≡ (leb (r.count + 1) r.limit_per_second, r1) =
      check_inside t r h.0 (omega arith) in
    rw e (ground (arith, ih.0), omega (arith, ih.1), ih.2, ih.3)

calls-append :
    (ts us : List Instants) (r : RateLimiter)
    → (calls (ts ++ us) r).0 ≡ (calls ts r).0 + (calls us (calls ts r).1).0
calls-append [] us r = omega arith
calls-append (t ∷ ts) us r = ground (arith, calls-append ts us (check t r).1)

-- The window is a fixed one, not a sliding one: whatever the limit, twice as many calls are
-- admitted within two nanoseconds, the first half just before the window ends and the second half
-- just after, where each call's two readings agree.
pub calls_burst :
    (limit start : ℕ)
    → limit + 1 < 2 ^ 32
    → let r : RateLimiter = record { window_start = start; count = 0; limit_per_second = limit } in
      (calls
        (replicate limit (instant (start + 999999999))
          ++ replicate limit (instant (start + 1000000000)))
        r).0
      ≡ limit + limit
calls_burst zero start h = refl
calls_burst (suc l) start h =
    calls-append (replicate (suc l) (instant (start + 999999999)))
      (replicate (suc l) (instant (start + 1000000000))) r
    ∙ ap₂ ◌+◌ (first.0 ∙ omega (arith, length-replicate l (instant (start + 999999999)))) (
        ap (λ (n : Bool × RateLimiter). if n.0 then suc (calls late n.1).0 else (calls late n.1).0)
          again
        ∙ second)
  where
    r : RateLimiter
    r = record { window_start = start; count = 0; limit_per_second = suc l }

    late : List Instants
    late = replicate l (instant (start + 1000000000))

    first :
        let (n, r') = calls (replicate (suc l) (instant (start + 999999999))) r in
        (n ≡ min (length (replicate (suc l) (instant (start + 999999999)))) (suc l - 0))
        × (r'.count ≡ 0 + length (replicate (suc l) (instant (start + 999999999))))
        × (r'.window_start ≡ start)
        × (r'.limit_per_second ≡ suc l)
    first =
        calls_window (replicate (suc l) (instant (start + 999999999))) r
          (All-replicate (λ (t : Instants). t.elapsed_at < start + 1000000000) (suc l)
            (instant (start + 999999999)) (omega arith))
          (omega (arith, length-replicate l (instant (start + 999999999))))

    r1 : RateLimiter
    r1 = (calls (replicate (suc l) (instant (start + 999999999))) r).1

    r2 : RateLimiter
    r2 = record r1 { window_start = start + 1000000000; count = 1 }

    again : check (instant (start + 1000000000)) r1 ≡ (leb 1 r1.limit_per_second, r2)
    again = check_later (instant (start + 1000000000)) r1 (omega (arith, first.2))

    second :
        (if leb 1 r1.limit_per_second then suc (calls late r2).0 else (calls late r2).0) ≡ suc l
    second = ground (
      arith,
      first.3,
      length-replicate l (instant (start + 1000000000)),
      calls_window late r2
          (All-replicate (λ (t : Instants). t.elapsed_at < start + 1000000000 + 1000000000) l
            (instant (start + 1000000000)) (omega arith))
          (omega (arith, length-replicate l (instant (start + 1000000000)))),
    )
