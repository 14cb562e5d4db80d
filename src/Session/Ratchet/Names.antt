-- ===== src/Session/Ratchet/Names.antt =====
-- The names under which skipped message keys are saved.
use winkd.Prelude.{
  ℕ, ◌≡◌, refl, sym, ap, ◌∙◌, [], ◌∷◌, ◌++◌, Str, arith, ◌==◌, str_eq, str_eq_iff, length, drop,
}
use winkd.Codec.Decimal.{decimal, decimal-injective}
use winkd.Session.Ratchet.{skipped_name}

drop-append : (p s : Str) → drop (length p) (p ++ s) ≡ s
drop-append [] s = refl
drop-append (c ∷ p) s = drop-append p s

append_cancel : (p s t : Str) → p ++ s ≡ p ++ t → s ≡ t
append_cancel p s t h = sym (drop-append p s) ∙ ap (drop (length p)) h ∙ drop-append p t

-- Under one ratchet key, different message numbers have different names.
pub skipped_name-injective : (rk : Str) (m n : ℕ) → skipped_name rk m ≡ skipped_name rk n → m ≡ n
unfolding skipped_name
skipped_name-injective rk m n h =
    decimal-injective m n (ap (drop 1) (append_cancel rk (b':' ∷ decimal m) (b':' ∷ decimal n) h))

pub str_eq-skipped_name :
    (rk : Str) (m n : ℕ) → str_eq (skipped_name rk m) (skipped_name rk n) ≡ (m == n)
str_eq-skipped_name rk m n =
    ground
      (arith, str_eq_iff (skipped_name rk m) (skipped_name rk n), skipped_name-injective rk m n)
