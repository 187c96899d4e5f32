-- ===== src/Layout/Stream/Bounded.antt =====
-- A reader of crates/burnout-layout/src/stream.rs gives no more bytes than the buffer that it fills has.
use burnout.Prelude.{
  ℕ, zero, suc, ◌-◌, ◌≤◌, ◌≡◌, inl, inr, Bool-cases, List, ◌++◌, length, arith, ◌==◌, length-append,
}
use burnout.Core.Error.{ok, ok-injective, Result-cases}
use burnout.Core.Target.{Io}
use burnout.Core.Write.{fill_loop, fill}

-- A read gives no more bytes than it is asked for.
abbrev pub Bounded : {R : Type 0} → (ℕ → Io R (List ℕ)) → Type 0
Bounded {R} read = (n : ℕ) (r : R) (got : List ℕ) → (read n r).0 ≡ ok got → length got ≤ n

module _ {R : Type 0} (read : ℕ → Io R (List ℕ)) (bounded : Bounded read) where
  fill_loop-Bounded : (fuel : ℕ) → Bounded (fill_loop read fuel)
  unfolding fill_loop
  fill_loop-Bounded fuel zero r out h = rw (← ok-injective h) (omega arith)
  fill_loop-Bounded zero (suc n) r out h = rw (← ok-injective h) (omega arith)
  fill_loop-Bounded (suc fuel) (suc n) r out h = elim (Result-cases (read (suc n) r).0) [
    | inr (e, failed) ↦ cc (rw failed at h)
    | inl (got, came_in) ↦ elim (Bool-cases (length got == 0)) [
      | inl none_came ↦ rw (← ok-injective (rw none_came at rw came_in at h)) (omega arith)
      | inr came ↦
          let rest = fill_loop read fuel (suc n - length got) (read (suc n) r).1 in
          elim (Result-cases rest.0) [
            | inr (e, failed) ↦ cc (rw failed at rw came at rw came_in at h)
            | inl (more, last) ↦
                let joined : got ++ more ≡ out =
                  ok-injective (rw last at rw came at rw came_in at h) in
                let most =
                  fill_loop-Bounded fuel (suc n - length got) (read (suc n) r).1 more last in
                rw (← joined)
                  (omega (arith, length-append got more, most, bounded (suc n) r got came_in))
          ]
    ]
  ]

  pub fill-Bounded : Bounded (fill read)
  unfolding fill
  fill-Bounded n = fill_loop-Bounded n n
