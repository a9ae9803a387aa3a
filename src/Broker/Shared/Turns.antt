-- ===== src/Broker/Shared/Turns.antt =====
-- Around each consumer of an order by priority stand the higher ones, its own and the lower ones.
use pulsar_lite.Prelude.{
  ℕ, zero, suc, true, Option, some, List, [], ◌∷◌, ◌++◌, length, get_elem?, All, ◌≡◌, refl, sym, ap,
  ◌∙◌, subst, arith, Bool-cases, inl, inr, some_injective,
}
use pulsar_lite.Prelude.Int.{ℤ, pos, le_int, eq_int}
use pulsar_lite.Broker.Shared.{
  Consumer, SharedDispatcher, ordered_consumers, modulo, choose, choose_at, chosen,
  get_next_available_consumer,
}
use pulsar_lite.Broker.Shared.Scans.{IsHigher, IsSame, IsLower}
use pulsar_lite.Broker.Shared.Selection.{Placed, by_turns, choose-by_turns}

abbrev pub IsAfter : Consumer → Consumer → Type 0
IsAfter a c = le_int a.priority_level c.priority_level ≡ true

-- No consumer stands before one whose level is a lower number.
abbrev pub IsSorted : List Consumer → Type 0
IsSorted [] = Unit {0}
IsSorted (a ∷ l) = All (IsAfter a) l × IsSorted l

record Split (t : ℤ) (l : List Consumer) : Type 0 where
  behind : List Consumer
  lower : List Consumer
  is_all : l ≡ behind ++ lower
  are_same_behind : All (IsSame t) behind
  are_lower : All (IsLower t) lower

All-IsLower :
    (t : ℤ) (a : Consumer) (l : List Consumer) → IsLower t a → All (IsAfter a) l → All (IsLower t) l
All-IsLower t a [] h v = tt
All-IsLower t a (c ∷ l) h (k, v) = (ground arith, All-IsLower t a l h v)

split :
    (c : Consumer) (l : List Consumer) → All (IsAfter c) l → IsSorted l → Split c.priority_level l
split c [] v s = record {
  behind = [];
  lower = [];
  is_all = refl;
  are_same_behind = tt;
  are_lower = tt;
}
split c (a ∷ l) (h, v) (k, s) = elim (Bool-cases (eq_int a.priority_level c.priority_level)) [
  | inl y ↦
      let r = split c l v s in
      record {
        behind = a ∷ r.behind;
        lower = r.lower;
        is_all = ap (λ x. a ∷ x) r.is_all;
        are_same_behind = (y, r.are_same_behind);
        are_lower = r.are_lower;
      }
  | inr n ↦
      let below : IsLower c.priority_level a = ground arith in
      record {
        behind = [];
        lower = a ∷ l;
        is_all = refl;
        are_same_behind = tt;
        are_lower = (below, All-IsLower c.priority_level a l below k);
      }
]

All-at :
    (P : Consumer → Type 0) (l : List Consumer) (i : ℕ) (c : Consumer)
    → All P l
    → get_elem? l i ≡ some c
    → P c
All-at P [] i c v h = absurd (cc)
All-at P (a ∷ l) zero c (p, v) h = subst P (some_injective a c h) p
All-at P (a ∷ l) (suc i) c (p, v) h = All-at P l i c v h

-- One more in front, with the same priority: there are no higher ones.
level :
    (a : Consumer) (l : List Consumer) (i : ℕ) (c : Consumer)
    → IsSame c.priority_level a
    → All (IsAfter a) l
    → (p : Placed l i c) (h : List Consumer) → h ≡ p.higher
    → Placed (a ∷ l) (suc i) c
level a l i c same v p [] e = record {
  higher = [];
  before = a ∷ p.before;
  behind = p.behind;
  lower = p.lower;
  is_all =
      ap (λ x. a ∷ x) (p.is_all ∙ ap (λ x. x ++ (p.before ++ c ∷ (p.behind ++ p.lower))) (sym e));
  is_index = (let z = p.is_index in let y = ap length e in omega arith);
  are_higher = tt;
  are_same_before = (same, p.are_same_before);
  are_same_behind = p.are_same_behind;
  are_lower = p.are_lower;
}
level a l i c same v p (x ∷ h) e =
    let above = (subst (All (IsHigher c.priority_level)) (sym e) p.are_higher).0 in
    let order =
      (subst (All (IsAfter a))
        (p.is_all ∙ ap (λ y. y ++ (p.before ++ c ∷ (p.behind ++ p.lower))) (sym e)) v).0 in
    absurd (ground arith)

more :
    (a : Consumer) (l : List Consumer) (i : ℕ) (c : Consumer)
    → IsAfter a c
    → All (IsAfter a) l
    → Placed l i c
    → Placed (a ∷ l) (suc i) c
more a l i c k v p = elim (Bool-cases (eq_int a.priority_level c.priority_level)) [
  | inl y ↦ level a l i c y v p p.higher refl
  | inr n ↦
      let above : IsHigher c.priority_level a = ground arith in
      record {
        higher = a ∷ p.higher;
        before = p.before;
        behind = p.behind;
        lower = p.lower;
        is_all = ap (λ x. a ∷ x) p.is_all;
        is_index = ap suc p.is_index ∙ omega arith;
        are_higher = (above, p.are_higher);
        are_same_before = p.are_same_before;
        are_same_behind = p.are_same_behind;
        are_lower = p.are_lower;
      }
]

pub placed :
    (l : List Consumer) (i : ℕ) (c : Consumer) → IsSorted l → get_elem? l i ≡ some c → Placed l i c
placed [] i c s h = absurd (cc)
placed (a ∷ l) zero c (v, s) h =
    let e : a ≡ c = some_injective a c h in
    let r = split a l v s in
    subst (Placed (a ∷ l) 0) e (record {
      higher = [];
      before = [];
      behind = r.behind;
      lower = r.lower;
      is_all = ap (λ x. a ∷ x) r.is_all;
      is_index = refl;
      are_higher = tt;
      are_same_before = tt;
      are_same_behind = r.are_same_behind;
      are_lower = r.are_lower;
    })
placed (a ∷ l) (suc i) c (v, s) h = more a l i c (All-at (IsAfter a) l i c v h) v (placed l i c s h)

abbrev pub IsUnsigned : Consumer → Type 0
IsUnsigned c = le_int (pos 0) c.priority_level ≡ true

All-front : (P : Consumer → Type 0) (a b : List Consumer) → All P (a ++ b) → All P a
All-front P [] b v = tt
All-front P (c ∷ a) b (h, v) = (h, All-front P a b v)

abbrev pub turn_of : {l : List Consumer} {i : ℕ} {c : Consumer} → Placed l i c → Option ℕ
turn_of {c = c} p = by_turns p.higher p.before c p.behind p.lower

choose-turn_of :
    (l : List Consumer) (i : ℕ) (c : Consumer) (p : Placed l i c)
    → All IsUnsigned l
    → choose l i c ≡ turn_of p
choose-turn_of l i c p v =
    let all = p.higher ++ (p.before ++ c ∷ (p.behind ++ p.lower)) in
    ap (λ x. choose x i c) p.is_all
    ∙ ap (λ n. choose all n c) p.is_index
    ∙ choose-by_turns p.higher p.before c p.behind p.lower p.are_higher p.are_same_before
        p.are_same_behind p.are_lower
        (All-front IsUnsigned p.higher _ (subst (All IsUnsigned) p.is_all v))

abbrev pub current_of : SharedDispatcher → ℕ
current_of d = modulo d.round_robin_index (length (ordered_consumers d))

pub get_next_available_consumer-turn_of :
    (d : SharedDispatcher) (c : Consumer)
    → IsSorted (ordered_consumers d)
    → All IsUnsigned (ordered_consumers d)
    → get_elem? (ordered_consumers d) (current_of d) ≡ some c
    → (p : Placed (ordered_consumers d) (current_of d) c) × (get_next_available_consumer d
        ≡ chosen d (ordered_consumers d) (turn_of p))
unfolding get_next_available_consumer
get_next_available_consumer-turn_of d c sorted unsigned at =
    let p = placed (ordered_consumers d) (current_of d) c sorted at in
    (
      p,
      ap (choose_at d (ordered_consumers d) (current_of d)) at
          ∙ ap (chosen d (ordered_consumers d))
              (choose-turn_of (ordered_consumers d) (current_of d) c p unsigned),
    )
