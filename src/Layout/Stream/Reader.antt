-- ===== src/Layout/Stream/Reader.antt =====
-- What `fill` of crates/burnout-layout/src/stream.rs gives for a reader that comes to an end.
use burnout.Prelude.{
  ℕ, zero, suc, ◌-◌, ◌≤◌, ◌<◌, ◌≡◌, refl, ap, ◌∙◌, sym, inl, inr, Bool-cases, List, [], ◌∷◌, ◌++◌,
  length, arith, ◌==◌, ==→≡, ==→≢, length-append, append_assoc,
}
use burnout.Core.Error.{Result, ok}
use burnout.Core.Target.{Io}
use burnout.Core.Write.{fill_loop, fill}
use burnout.Core.Write.Blocks.{fill_step}

pub length_zero : (xs : List ℕ) → length xs ≡ 0 → xs ≡ []
length_zero [] h = refl
length_zero (x ∷ xs) h = absurd (omega (arith, h))

-- `Left r xs` says that `xs` is what a reader has left.
module _ {R : Type 0} (read : ℕ → Io R (List ℕ)) (Left : R → List ℕ → Type 0) where
  -- Some bytes of those that are left, one at least unless none is.
  pub record Part (n : ℕ) (r : R) (xs : List ℕ) (answer : Result (List ℕ) × R) : Type 0 where
    pub next : R
    pub got : List ℕ
    pub rest : List ℕ
    pub returns : answer ≡ (ok got, next)
    pub parts : xs ≡ got ++ rest
    pub at_most : length got ≤ n
    pub left : Left next rest

  -- A reader that fails nowhere, and gives what it has in parts of any size.
  pub record IsReader : Type 0 where
    pub read_some :
        (n : ℕ) (r : R) (xs : List ℕ)
        → 0 < n
        → Left r xs
        → (p : Part n r xs (read n r)) × (length p.got ≡ 0 → xs ≡ [])

  module _ (laws : IsReader) where
    fill_loop-Part :
        (fuel n : ℕ) (r : R) (xs : List ℕ)
        → n ≤ fuel
        → Left r xs
        → (p : Part n r xs (fill_loop read fuel n r)) × (length p.got < n → p.rest ≡ [])
    unfolding fill_loop
    fill_loop-Part fuel zero r xs f l = (
      record {
        next = r;
        got = [];
        rest = xs;
        returns = refl;
        parts = refl;
        at_most = omega arith;
        left = l;
      },
      λ h. absurd (omega (arith, h)),
    )
    fill_loop-Part zero (suc n) r xs f l = absurd (omega (arith, f))
    fill_loop-Part (suc fuel) (suc n) r xs f l =
        let (p, ends) = laws.read_some (suc n) r xs (omega arith) l in
        elim (Bool-cases (length p.got == 0)) [
          | inl none_came ↦
              let nothing : xs ≡ [] = ends (==→≡ (length p.got) 0 none_came) in
              let empty : p.got ≡ [] = length_zero p.got (==→≡ (length p.got) 0 none_came) in
              let all : xs ≡ p.rest = p.parts ∙ ap (λ ys. ys ++ p.rest) empty in
              (
                record {
                  next = p.next;
                  got = [];
                  rest = p.rest;
                  returns = rw p.returns (rw none_came refl);
                  parts = all;
                  at_most = omega arith;
                  left = p.left;
                },
                λ h. sym all ∙ nothing,
              )
          | inr came ↦
              let n_left = suc n - length p.got in
              let some_bytes = ==→≢ (length p.got) 0 came in
              let (q, last) =
                fill_loop-Part fuel n_left p.next p.rest (omega (arith, some_bytes, f)) p.left in
              (
                record {
                  next = q.next;
                  got = p.got ++ q.got;
                  rest = q.rest;
                  returns =
                      fill_step read fuel n r p.next q.next p.got q.got p.returns
                        (omega (arith, some_bytes)) q.returns;
                  parts =
                      p.parts
                      ∙ ap (λ ys. p.got ++ ys) q.parts
                      ∙ sym (append_assoc p.got q.got q.rest);
                  at_most = omega (arith, length-append p.got q.got, q.at_most, p.at_most);
                  left = q.left;
                },
                λ h. last (omega (arith, length-append p.got q.got, h)),
              )
        ]

    pub fill-Part :
        (n : ℕ) (r : R) (xs : List ℕ)
        → Left r xs
        → (p : Part n r xs (fill read n r)) × (length p.got < n → p.rest ≡ [])
    unfolding fill
    fill-Part n r xs l = fill_loop-Part n n r xs (omega arith) l
