-- ===== src/ManagedLedger/RangeSet/Canonical.antt =====
-- The representation of range_set.rs is canonical: one list of ranges for each set of positions.
use pulsar_lite.Prelude.{
  ℕ, ◌+◌, ◌≤◌, ◌<◌, true, false, List, [], ◌∷◌, ◌≡◌, refl, arith, ◌∙◌, sym, ap, subst, dec_lt,
}
use pulsar_lite.ManagedLedger.RangeSet.{contains, u64_key}
use pulsar_lite.ManagedLedger.RangeSet.Separated.{Above, covers, covers_below, contains-covers}

head_covered : (s e : ℕ) (r : List (ℕ × ℕ)) (x : ℕ) → s ≤ x → x ≤ e → covers ((s, e) ∷ r) x ≡ true
unfolding covers
head_covered s e r x h g = ground arith

beyond :
    (lo s e : ℕ) (r : List (ℕ × ℕ)) → Above lo ((s, e) ∷ r) → covers ((s, e) ∷ r) (e + 1) ≡ false
unfolding covers
beyond lo s e r w = ground (arith, covers_below (e + 2) (e + 1) r w.3)

skip : (s e : ℕ) (r : List (ℕ × ℕ)) (x : ℕ) → e < x → covers ((s, e) ∷ r) x ≡ covers r x
unfolding covers
skip s e r x h = ground arith

abbrev Same : List (ℕ × ℕ) → List (ℕ × ℕ) → Type 0
Same rs ts = (x : ℕ) → covers rs x ≡ covers ts x

start-le :
    (lo s e s' e' : ℕ) (r r' : List (ℕ × ℕ))
    → Above lo ((s, e) ∷ r)
    → Above lo ((s', e') ∷ r')
    → Same ((s, e) ∷ r) ((s', e') ∷ r')
    → s' ≤ s
start-le lo s e s' e' r r' w v h = elim (dec_lt s s') [
  | no n ↦ omega arith
  | yes lt ↦
      let low = covers_below s' s ((s', e') ∷ r') (omega arith, v.1, v.2, v.3) lt in
      let high = head_covered s e r s (omega arith) w.1 in absurd (cc (h s))
]

end-le :
    (lo s e e' : ℕ) (r r' : List (ℕ × ℕ))
    → Above lo ((s, e) ∷ r)
    → Above lo ((s, e') ∷ r')
    → Same ((s, e) ∷ r) ((s, e') ∷ r')
    → e' ≤ e
end-le lo s e e' r r' w v h = elim (dec_lt e e') [
  | no n ↦ omega arith
  | yes lt ↦
      let low = beyond lo s e r w in
      let high = head_covered s e' r' (e + 1) (omega arith) (omega arith) in absurd (cc (h (e + 1)))
]

tail-Same :
    (s e : ℕ) (r r' : List (ℕ × ℕ))
    → Above (e + 2) r
    → Above (e + 2) r'
    → Same ((s, e) ∷ r) ((s, e) ∷ r')
    → Same r r'
tail-Same s e r r' w v h x = elim (dec_lt e x) [
  | yes past ↦ sym (skip s e r x past) ∙ h x ∙ skip s e r' x past
  | no n ↦
      covers_below (e + 2) x r w (omega arith) ∙ sym (covers_below (e + 2) x r' v (omega arith))
]

equal_starts :
    (lo s e e' : ℕ) (r r' : List (ℕ × ℕ))
    → Above lo ((s, e) ∷ r)
    → Above lo ((s, e') ∷ r')
    → Same ((s, e) ∷ r) ((s, e') ∷ r')
    → (Above (e + 2) r' → Same r r' → r ≡ r')
    → (s, e) ∷ r ≡ (s, e') ∷ r'
equal_starts lo s e e' r r' w v h ih =
    let he : e' ≡ e =
      omega (arith, end-le lo s e e' r r' w v h, end-le lo s e' e r' r v w (λ x. sym (h x))) in
    let v' = subst (λ t. Above lo ((s, t) ∷ r')) he v in
    let h' = subst (λ t. Same ((s, e) ∷ r) ((s, t) ∷ r')) he h in
    cc (he, ih v'.3 (tail-Same s e r r' w.3 v'.3 h'))

covers-canonical :
    (lo : ℕ) (rs ts : List (ℕ × ℕ)) → Above lo rs → Above lo ts → Same rs ts → rs ≡ ts
covers-canonical lo [] [] w v h = refl
covers-canonical lo [] ((s, e) ∷ r) w v h =
    absurd
      (cc (h s, head_covered s e r s (omega arith) v.1, covers_below (s + 1) s [] tt (omega arith)))
covers-canonical lo ((s, e) ∷ r) [] w v h =
    absurd
      (cc (h s, head_covered s e r s (omega arith) w.1, covers_below (s + 1) s [] tt (omega arith)))
covers-canonical lo ((s, e) ∷ r) ((s', e') ∷ r') w v h =
    let hs : s' ≡ s =
      omega (
        arith,
        start-le lo s e s' e' r r' w v h,
        start-le lo s' e' s e r' r v w (λ x. sym (h x)),
      ) in
    equal_starts lo s e e' r r' w (subst (λ t. Above lo ((t, e') ∷ r')) hs v)
      (subst (λ t. Same ((s, e) ∷ r) ((t, e') ∷ r')) hs h) (covers-canonical (e + 2) r r' w.3)
    ∙ ap (λ t. (t, e') ∷ r') (sym hs)

-- Two separated lists of ranges for which contains agrees at every position are the same list.
pub Above-canonical :
    (lo : ℕ) (rs ts : List (ℕ × ℕ))
    → Above lo rs
    → Above lo ts
    → ((x : ℕ) → contains rs x ≡ contains ts x)
    → rs ≡ ts
Above-canonical lo rs ts w v h =
    covers-canonical lo rs ts w v
      (λ x. sym (contains-covers lo x rs w) ∙ h x ∙ contains-covers lo x ts v)
