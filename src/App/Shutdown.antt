-- ===== src/App/Shutdown.antt =====
-- About the shutdown of relayx/server/app.py: when it ends.
use relay_x.Prelude.{
  ℕ, zero, suc, ◌+◌, ◌-◌, ◌*◌, ◌≤◌, ◌<◌, ◌≡◌, ap, true, false, ◌⊎◌, inl, inr, some, arith,
  Bool-cases,
}
use relay_x.Prelude.Int.{pos, ltb_ℤ}
use relay_x.App.{AppState, Watch, must_wait, wait_from, wait_for_outstanding, shut_down}

-- Each sleep takes at least `nap`.
abbrev pub Advances : Watch → ℕ → Type 0
Advances w nap = (k : ℕ) → w.clock k + nap ≤ w.clock (suc k)

-- The wait ended at the first test at which it had to.
pub record IsEnd (w : Watch) (deadline from k : ℕ) : Type 0 where
  pub later : from ≤ k
  pub over : must_wait w deadline k ≡ false
  pub earliest : (j : ℕ) → from ≤ j → j < k → must_wait w deadline j ≡ true

Nat_le-cases : (m n : ℕ) → m ≤ n → (m ≡ n) ⊎ (m < n)
Nat_le-cases m n le = ground arith

Nat_lt-cases : (m n : ℕ) → (m < n) ⊎ (n ≤ m)
Nat_lt-cases m n = ground arith

IsEnd-step :
    (w : Watch) (deadline from k : ℕ)
    → must_wait w deadline from ≡ true
    → IsEnd w deadline (suc from) k
    → IsEnd w deadline from k
IsEnd-step w deadline from k waits e = record {
  later = omega (arith, e.later);
  over = e.over;
  earliest = λ j le lt. from_here j le lt (Nat_le-cases from j le);
}
  where
    from_here : (j : ℕ) → from ≤ j → j < k → (from ≡ j) ⊎ (from < j) → must_wait w deadline j ≡ true
    from_here j le lt (inl e') = rw (← e') waits
    from_here j le lt (inr after) = e.earliest j after lt

-- Past the deadline nothing waits.
must_wait_past :
    (w : Watch) (deadline k : ℕ) → deadline ≤ w.clock k → must_wait w deadline k ≡ false
must_wait_past w deadline k past = ground arith

-- The clock passes the deadline before the fuel runs out.
wait_from_ends :
    (w : Watch) (nap deadline fuel from : ℕ)
    → Advances w nap
    → deadline ≤ w.clock from + fuel * nap
    → (k : ℕ) × (wait_from w deadline (suc fuel) from ≡ some k) × IsEnd w deadline from k
unfolding wait_from
wait_from_ends w nap deadline zero from advances enough =
    let done = must_wait_past w deadline from (omega arith) in
    (
      from,
      rw (done, wait_from),
      record { later = omega arith; over = done; earliest = λ j le lt. absurd (omega arith) },
    )
wait_from_ends w nap deadline (suc fuel) from advances enough =
    elim (Bool-cases (must_wait w deadline from)) [
      | inl waits ↦
          let (k, e, end) =
            wait_from_ends w nap deadline fuel (suc from) advances (grind (arith, advances from)) in
          (k, rw (waits, wait_from) e, IsEnd-step w deadline from k waits end)
      | inr done ↦ (
        from,
        rw (done, wait_from),
        record { later = omega arith; over = done; earliest = λ j le lt. absurd (omega arith) },
      )
    ]

add_zero : (a : ℕ) → a ≡ a + 0
add_zero a = omega arith

le_of_eq : (a b : ℕ) → a ≡ b → a ≤ b
le_of_eq a b e = omega arith

add_suc : (a b : ℕ) → a + suc b ≡ suc (a + b)
add_suc a b = omega arith

le_step : (a b n c : ℕ) → a ≤ b → b + n ≤ c → a ≤ c
le_step a b n c h k = omega arith

clock_mono : (w : Watch) (nap from d : ℕ) → Advances w nap → w.clock from ≤ w.clock (from + d)
clock_mono w nap from zero advances = le_of_eq _ _ (ap w.clock (add_zero from))
clock_mono w nap from (suc d) advances =
    rw (add_suc from d) (le_step _ _ nap _ (clock_mono w nap from d advances) (advances (from + d)))

over-cases :
    (w : Watch) (deadline k : ℕ)
    → must_wait w deadline k ≡ false
    → (ltb_ℤ (pos 0) (w.outstanding k) ≡ false) ⊎ (deadline ≤ w.clock k)
over-cases w deadline k over = ground arith

waits_both :
    (w : Watch) (deadline k : ℕ)
    → must_wait w deadline k ≡ true
    → (ltb_ℤ (pos 0) (w.outstanding k) ≡ true) × (w.clock k < deadline)
waits_both w deadline k waits = (ground arith, ground arith)

-- The state that a shutdown leaves.
abbrev pub closed : AppState → AppState
closed s = record s { shutting_down = true; client_closed = true }

shut_down_at :
    (w : Watch) (fuel began timeout k : ℕ) (s : AppState)
    → wait_from w (began + timeout) fuel 0 ≡ some k
    → shut_down w fuel began timeout s ≡ some (k, closed s)
unfolding shut_down wait_for_outstanding
shut_down_at w fuel began timeout k s e = rw (e, shut_down)

-- If every sleep takes at least `nap` on the clock, the clock has reached `began` at the first
-- test, and the timeout is at most `fuel` times `nap`, the shutdown ends within `fuel` + 1 tests,
-- with the client closed; at the test where it ends no request is outstanding or the deadline has
-- passed, and at every earlier test a request was outstanding and the deadline had not passed.
pub shut_down_ends :
    (w : Watch) (nap fuel began timeout : ℕ) (s : AppState)
    → Advances w nap
    → began ≤ w.clock 0
    → timeout ≤ fuel * nap
    → (k : ℕ) × (shut_down w (suc fuel) began timeout s ≡ some (k, closed s))
      × ((ltb_ℤ (pos 0) (w.outstanding k) ≡ false) ⊎ (began + timeout ≤ w.clock k))
      × ((j : ℕ) → j < k → (ltb_ℤ (pos 0) (w.outstanding j) ≡ true) × (w.clock j < began + timeout))
shut_down_ends w nap fuel began timeout s advances start enough =
    let (k, e, end) = wait_from_ends w nap (began + timeout) fuel 0 advances (omega arith) in
    (
      k,
      shut_down_at w (suc fuel) began timeout k s e,
      over-cases w (began + timeout) k end.over,
      λ j lt. waits_both w (began + timeout) j (end.earliest j (omega arith) lt),
    )

-- If every sleep takes at least `nap` on the clock, the clock has reached `began` at the first
-- test, the timeout is at most `fuel` times `nap`, and at some test before the deadline no request
-- is outstanding, then the shutdown ends at that test or an earlier one, with no request
-- outstanding there, and closes the client.
pub shut_down-drained :
    (w : Watch) (nap fuel began timeout j : ℕ) (s : AppState)
    → Advances w nap
    → began ≤ w.clock 0
    → timeout ≤ fuel * nap
    → ltb_ℤ (pos 0) (w.outstanding j) ≡ false
    → w.clock j < began + timeout
    → (k : ℕ) × (shut_down w (suc fuel) began timeout s ≡ some (k, closed s))
      × (k ≤ j)
      × (ltb_ℤ (pos 0) (w.outstanding k) ≡ false)
shut_down-drained w nap fuel began timeout j s advances start enough empty early =
    let (k, e, why, before) = shut_down_ends w nap fuel began timeout s advances start enough in
    let le = by_then k before (Nat_lt-cases j k) in (k, e, le, drained k le why)
  where
    by_then :
        (k : ℕ)
        → ((i : ℕ)
            → i < k
            → (ltb_ℤ (pos 0) (w.outstanding i) ≡ true) × (w.clock i < began + timeout))
        → (j < k) ⊎ (k ≤ j)
        → k ≤ j
    by_then k before (inl lt) = cc ((before j lt).0)
    by_then k before (inr le) = le

    drained :
        (k : ℕ)
        → k ≤ j
        → (ltb_ℤ (pos 0) (w.outstanding k) ≡ false) ⊎ (began + timeout ≤ w.clock k)
        → ltb_ℤ (pos 0) (w.outstanding k) ≡ false
    drained k le (inl none_left) = none_left
    drained k le (inr late) =
        let back : k + (j - k) ≡ j = omega arith in
        absurd (omega (arith, clock_mono w nap k (j - k) advances, ap w.clock back))
