-- ===== src/Core/Verify/Reading.antt =====
-- What `verify_image` of crates/burnout-core/src/write.rs answers for a drive that holds given bytes.
use mathlib.Core.Path.{ap₂}
use burnout.Prelude.{
  ℕ, zero, suc, ◌+◌, ◌-◌, ◌%◌, ◌≤◌, ◌<◌, ◌≡◌, refl, ap, ◌∙◌, sym, inl, inr, Option, none, some,
  List, [], ◌∷◌, ◌++◌, length, get_or, arith, ◌==◌, Bool-cases, length-append, add_whole, sub_whole,
}
use burnout.Core.Target.{Target}
use burnout.Core.Target.Device.{given_join, SameDevice-trans, IsDevice, ReadAll}
use burnout.Core.Write.{fill_loop, fill}
use burnout.Core.Write.Blocks.{fill_step}
use burnout.Core.Verify.{shift, first_of, differs_at, note_difference}

-- Two lists with the same bytes are one.
pub list_ext :
    (xs ys : List ℕ)
    → length xs ≡ length ys
    → ((i : ℕ) → i < length xs → get_or xs i 0 ≡ get_or ys i 0)
    → xs ≡ ys
list_ext [] [] h e = refl
list_ext [] (y ∷ ys) h e = absurd (omega arith)
list_ext (x ∷ xs) [] h e = absurd (omega arith)
list_ext (x ∷ xs) (y ∷ ys) h e =
    ap₂ (λ a as_. a ∷ as_) (e 0 (omega arith))
      (list_ext xs ys (omega arith) (λ i q. e (suc i) (omega arith)))

shift-first_of :
    (p n : ℕ) (d e : Option ℕ)
    → first_of (shift p d) (shift (p + n) e) ≡ shift p (first_of d (shift n e))
shift-first_of p n none none = refl
shift-first_of p n none (some m) = ap some (omega arith)
shift-first_of p n (some k) e = refl

differs_at-append :
    (xs zs ys ws : List ℕ)
    → length xs ≡ length zs
    → differs_at (xs ++ ys) (zs ++ ws)
      ≡ first_of (differs_at xs zs) (shift (length xs) (differs_at ys ws))
unfolding differs_at
differs_at-append [] [] ys ws h = shift_zero (differs_at ys ws)
  where
    shift_zero : (o : Option ℕ) → o ≡ shift 0 o
    shift_zero none = refl
    shift_zero (some n) = ap some (omega arith)
differs_at-append [] (z ∷ zs) ys ws h = absurd (omega arith)
differs_at-append (x ∷ xs) [] ys ws h = absurd (omega arith)
differs_at-append (x ∷ xs) (z ∷ zs) ys ws h = elim (Bool-cases (x == z)) [
  | inl e ↦ rw e (
      ap (shift 1) (differs_at-append xs zs ys ws (omega arith))
      ∙ sym (shift-first_of 1 (length xs) (differs_at xs zs) (differs_at ys ws))
      ∙ ap (λ (n : ℕ). first_of (shift 1 (differs_at xs zs)) (shift n (differs_at ys ws)))
          (omega arith))
  | inr e ↦ rw e refl
]

pub note_nil : (found : Option ℕ) (p : ℕ) (zs : List ℕ) → note_difference found p [] zs ≡ found
unfolding note_difference differs_at
note_nil none p zs = refl
note_nil (some n) p zs = refl

-- Two blocks are noted as one.
pub note_join :
    (found : Option ℕ) (p : ℕ) (xs zs ys ws : List ℕ)
    → length xs ≡ length zs
    → note_difference (note_difference found p xs zs) (p + length xs) ys ws
      ≡ note_difference found p (xs ++ ys) (zs ++ ws)
unfolding note_difference
note_join (some n) p xs zs ys ws h = refl
note_join none p xs zs ys ws h =
    shift-first_of p (length xs) (differs_at xs zs) (differs_at ys ws)
    ∙ ap (shift p) (sym (differs_at-append xs zs ys ws h))

module _ {T : Type 0} (target : Target T) (Valid : T → Type 0) (byte : T → ℕ → ℕ) (at : T → ℕ)
    (device : IsDevice target Valid byte at) where
  -- `fill` over a device, for whole sectors at a boundary.
  fill_loop-ReadAll :
      (fuel n : ℕ) (t : T)
      → Valid t
      → n ≤ fuel
      → at t % target.logical_sector_size t ≡ 0
      → n % target.logical_sector_size t ≡ 0
      → at t + n ≤ target.size t
      → ReadAll target Valid byte at n t (fill_loop target.read fuel n t)
  unfolding fill_loop
  fill_loop-ReadAll fuel zero t v f p q r = record {
    next = t;
    got = [];
    returns = refl;
    same = record { valid = v; sector = refl; size = refl };
    size = refl;
    position = omega arith;
    given = λ i h. absurd (omega arith);
    bytes = λ a. refl;
  }
  fill_loop-ReadAll zero (suc n) t v f p q r = absurd (omega arith)
  fill_loop-ReadAll (suc fuel) (suc n) t v f p q r =
      let w = device.read_some (suc n) t v (omega arith) p q r in
      let k = length w.got in
      let s = target.logical_sector_size t in
      let rest =
        fill_loop-ReadAll fuel (suc n - k) w.next w.same.valid (omega (arith, w.some_bytes))
          (rw w.same.sector (rw w.position (add_whole (at t) k s p w.whole)))
          (rw w.same.sector (sub_whole (suc n) k s q w.whole w.at_most))
          (omega (arith, w.position, w.at_most, w.same.size)) in
      record {
        next = rest.next;
        got = w.got ++ rest.got;
        returns =
            fill_step target.read fuel n t w.next rest.next w.got rest.got w.returns w.some_bytes
              rest.returns;
        same = SameDevice-trans target Valid w.same rest.same;
        size = omega (arith, length-append {0} w.got rest.got, rest.size, w.at_most);
        position = omega (arith, rest.position, w.position, w.at_most);
        given = λ i h.
            given_join (byte t) (byte w.next) (at t) (at w.next) w.got rest.got (suc n - k) w.given
              rest.given w.position w.bytes i (omega (arith, w.at_most));
        bytes = λ a. rest.bytes a ∙ w.bytes a;
      }

  pub fill-ReadAll :
      (n : ℕ) (t : T)
      → Valid t
      → at t % target.logical_sector_size t ≡ 0
      → n % target.logical_sector_size t ≡ 0
      → at t + n ≤ target.size t
      → ReadAll target Valid byte at n t (fill target.read n t)
  unfolding fill
  fill-ReadAll n t v p q r = fill_loop-ReadAll n n t v (omega arith) p q r
