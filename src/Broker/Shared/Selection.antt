-- ===== src/Broker/Shared/Selection.antt =====
-- The next consumer is the first one with permits, the higher priorities first, then the own one in
-- a round, then the lower ones.
use mathlib.Core.List.{append_assoc}
use pulsar_lite.Prelude.{
  ℕ, zero, suc, ◌+◌, ◌<◌, ◌≤◌, true, false, Option, none, some, List, [], ◌∷◌, ◌++◌, length,
  get_elem?, All, ◌==◌, if◌then◌else◌, ◌≡◌, refl, sym, ap, ◌∙◌, subst, arith, Bool-cases, inl, inr,
  length-append,
}
use pulsar_lite.Prelude.Int.{ℤ, pos, le_int, eq_int}
use pulsar_lite.Broker.ConsumerDispatch.{has_permits}
use pulsar_lite.Broker.Shared.{
  Consumer, find_higher, index_of_priority, find_skipping, Scan, ended, scan_loop, scan_at, go_on,
  wrap_around, after_scan, find_available_consumer_from_same_or_lower_priority, choose, or_else,
}
use pulsar_lite.Broker.Shared.Scans.{
  first_ready, IsHigher, IsSame, IsLower, At, At-part, find_higher_lem, index_of_priority_lem,
  find_skipping_lem, found_or, scan_behind, scan_before, head_or_none, get_elem?-past,
}

-- The order around the current consumer.
pub record Placed (l : List Consumer) (current_index : ℕ) (current : Consumer) : Type 0 where
  pub higher : List Consumer
  pub before : List Consumer
  pub behind : List Consumer
  pub lower : List Consumer
  pub is_all : l ≡ higher ++ (before ++ (current ∷ (behind ++ lower)))
  pub is_index : current_index ≡ length higher + length before
  pub are_higher : All (IsHigher current.priority_level) higher
  pub are_same_before : All (IsSame current.priority_level) before
  pub are_same_behind : All (IsSame current.priority_level) behind
  pub are_lower : All (IsLower current.priority_level) lower

-- The order in which the consumers are asked, each by its index.
abbrev pub by_turns :
    (higher before : List Consumer) → Consumer → (behind lower : List Consumer) → Option ℕ
by_turns higher before current behind lower =
    let current_index = length higher + length before in
    let end = current_index + length (current ∷ behind) in
    or_else (first_ready 0 higher) (
      or_else (first_ready current_index (current ∷ behind))
        (or_else (first_ready (length higher) before) (first_ready end lower)))

module _ (higher before : List Consumer) (current : Consumer) (behind lower : List Consumer)
    (are_higher : All (IsHigher current.priority_level) higher)
    (are_same_before : All (IsSame current.priority_level) before)
    (are_same_behind : All (IsSame current.priority_level) behind)
    (are_lower : All (IsLower current.priority_level) lower) where
  abbrev t : ℤ
  t = current.priority_level

  abbrev all : List Consumer
  all = higher ++ (before ++ (current ∷ (behind ++ lower)))

  abbrev here : ℕ
  here = length higher + length before

  abbrev end : ℕ
  end = here + length (current ∷ behind)

  before-At : At all (length higher) before
  before-At = At-part higher before (current ∷ (behind ++ lower))

  front : List Consumer
  front = higher ++ (before ++ current ∷ [])

  length-front : length front ≡ here + 1
  unfolding front
  length-front =
      length-append higher (before ++ current ∷ [])
      ∙ ap (λ n. length higher + n) (length-append before (current ∷ []))
      ∙ omega arith

  front-all : front ++ (behind ++ lower) ≡ all
  unfolding front
  front-all =
      append_assoc higher (before ++ current ∷ []) (behind ++ lower)
      ∙ ap (λ l. higher ++ l) (append_assoc before (current ∷ []) (behind ++ lower))

  behind-At : At all (here + 1) behind
  behind-At =
      subst (λ l. At l (here + 1) behind) front-all
        (subst (λ n. At (front ++ (behind ++ lower)) n behind) length-front
          (At-part front behind lower))

  length-ahead : length (front ++ behind) ≡ end
  length-ahead = length-append front behind ∙ ap (λ n. n + length behind) length-front ∙ omega arith

  lower-head : get_elem? all end ≡ head_or_none lower
  lower-head =
      ap (λ l. get_elem? l end) (sym front-all ∙ sym (append_assoc front behind lower))
      ∙ ap (λ n. get_elem? ((front ++ behind) ++ lower) n) (sym length-ahead)
      ∙ get_elem?-past (front ++ behind) lower

  first-index-of :
      (b rest : List Consumer)
      → All (IsSame t) b
      → index_of_priority 0 t (higher ++ (b ++ current ∷ rest)) ≡ some (length higher)
  first-index-of [] rest v =
      index_of_priority_lem t 0 higher current rest are_higher (ground arith)
      ∙ ap some (omega arith)
  first-index-of (c ∷ b) rest (same, v) =
      index_of_priority_lem t 0 higher c (b ++ current ∷ rest) are_higher same
      ∙ ap some (omega arith)

  first-index : index_of_priority 0 t all ≡ some (length higher)
  first-index = first-index-of before (behind ++ lower) are_same_before

  scan_at-lower :
      (again : ℕ → ℕ → Scan) (e : ℕ) (low : List Consumer)
      → All (IsLower t) low
      → scan_at all t here again end e (head_or_none low)
        ≡ wrap_around here again end (index_of_priority 0 t all)
  scan_at-lower again e [] v = refl
  scan_at-lower again e (c ∷ low) (below, v) =
      let other : eq_int c.priority_level t ≡ false = ground arith in rw (other, if◌then◌else◌) refl

  wrapped :
      (fuel : ℕ) (b : List Consumer)
      → At all (length higher) b
      → All (IsSame t) b
      → length higher + length b ≡ here
      → length b ≤ fuel
      → go_on here (λ s e. scan_loop fuel all t here s e) (length higher) end
        ≡ found_or (ended end) (first_ready (length higher) b)
  wrapped fuel [] v w k h =
      let back : (length higher == here) ≡ true = ground arith in rw (back, if◌then◌else◌) refl
  wrapped fuel (c ∷ b) v w k h =
      let on : (length higher == here) ≡ false = ground arith in
      rw (on, if◌then◌else◌) (scan_before all t here fuel (length higher) end c b v w k h)

  -- At the end of the priority the scan goes on at its first consumer, or it is back.
  scan-end :
      (fuel e : ℕ)
      → length before < fuel
      → scan_loop fuel all t here end e ≡ found_or (ended end) (first_ready (length higher) before)
  unfolding scan_loop
  scan-end zero e h = absurd (omega arith)
  scan-end (suc fuel) e h =
      let again : ℕ → ℕ → Scan = λ s e'. scan_loop fuel all t here s e' in
      ap (scan_at all t here again end e) lower-head
      ∙ scan_at-lower again e lower are_lower
      ∙ ap (wrap_around here again end) first-index
      ∙ wrapped fuel before before-At are_same_before refl (omega arith)

  skips : find_skipping 0 end all ≡ first_ready end lower
  skips =
      ap (λ l. find_skipping 0 end l) (sym front-all ∙ sym (append_assoc front behind lower))
      ∙ ap (λ n. find_skipping 0 n ((front ++ behind) ++ lower)) (sym length-ahead)
      ∙ find_skipping_lem 0 (front ++ behind) lower
      ∙ ap (λ n. first_ready n lower) (let z = length-ahead in omega arith)

  after_scan-found_or :
      (a b : Option ℕ)
      → after_scan all (found_or (found_or (ended end) b) a)
        ≡ or_else a (or_else b (first_ready end lower))
  after_scan-found_or (some a) b = refl
  after_scan-found_or none (some b) = refl
  after_scan-found_or none none = skips

  length-all : length all ≡ end + length lower
  length-all =
      ap length (sym front-all ∙ sym (append_assoc front behind lower))
      ∙ length-append (front ++ behind) lower
      ∙ ap (λ n. n + length lower) length-ahead

  scan-all :
      scan_loop (length all + 1) all t here (here + 1) here
      ≡ found_or
          (found_or (ended end) (first_ready (length higher) before))
          (first_ready (here + 1) behind)
  scan-all =
      let fuel = here + length lower + 2 in
      let enough : length all + 1 ≡ length behind + fuel = let z = length-all in omega arith in
      let at_end : here + 1 + length behind ≡ end = omega arith in
      scan_behind all t here (length all + 1) fuel (here + 1) here behind behind-At are_same_behind
        (omega arith) enough
      ∙ ap (λ n. found_or (scan_loop fuel all t here n here) (first_ready (here + 1) behind)) at_end
      ∙ ap (λ s. found_or s (first_ready (here + 1) behind)) (scan-end fuel here (omega arith))

  same_or_lower :
      find_available_consumer_from_same_or_lower_priority all here current
      ≡ or_else
          (first_ready here (current ∷ behind))
          (or_else (first_ready (length higher) before) (first_ready end lower))
  unfolding find_available_consumer_from_same_or_lower_priority
  same_or_lower = elim (Bool-cases (has_permits current.state)) [
    | inl y ↦ rw (y, if◌then◌else◌) refl
    | inr n ↦
        rw (n, if◌then◌else◌)
          (ap (after_scan all) scan-all
            ∙ after_scan-found_or (first_ready (here + 1) behind)
                (first_ready (length higher) before))
  ]

  none-higher :
      (h : List Consumer)
      → All (IsHigher t) h
      → All (λ (c : Consumer). le_int (pos 0) c.priority_level ≡ true) h
      → eq_int t (pos 0) ≡ true
      → none ≡ first_ready 0 h
  none-higher [] v w e = refl
  none-higher (c ∷ h) (k, v) (j, w) e = absurd (ground arith)

  higher_first :
      All (λ (c : Consumer). le_int (pos 0) c.priority_level ≡ true) higher
      → (if eq_int t (pos 0) then none else find_higher 0 here t all) ≡ first_ready 0 higher
  higher_first v = elim (Bool-cases (eq_int t (pos 0))) [
    | inl y ↦ rw (y, if◌then◌else◌) (none-higher higher are_higher v y)
    | inr n ↦
        rw (n, if◌then◌else◌)
          (find_higher_lem t 0 here higher before (current ∷ (behind ++ lower)) are_higher
            are_same_before refl)
  ]

  pub choose-by_turns :
      All (λ (c : Consumer). le_int (pos 0) c.priority_level ≡ true) higher
      → choose all here current ≡ by_turns higher before current behind lower
  unfolding choose
  choose-by_turns v =
      ap (λ a. or_else a (find_available_consumer_from_same_or_lower_priority all here current))
        (higher_first v)
      ∙ ap (or_else (first_ready 0 higher)) same_or_lower
