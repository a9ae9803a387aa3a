-- ===== src/Broker/Redelivery/Shape.antt =====
-- The two maps of redelivery_controller.rs: which messages are queued and which are in flight. The
-- facts hold for every key.
use pulsar_lite.Prelude.{none, some, List, ◌∷◌, ◌≡◌, sym, ap, ◌∙◌, arith, inl, inr, subst}
use pulsar_lite.Prelude.Maps.{
  MapKey, get, insert_entry, insert_ordered, remove_key, get-insert_entry, get-remove_key, Distinct,
  insert_ordered-Distinct, insert_entry-Distinct, remove_key-Distinct, get_tail, insert_ordered-Was,
  insert_entry-Was, remove_key-Was,
}

module _ {K V W : Type 0} ⦃o : MapKey K⦄ (own : V → K) where
  -- An entry is stored under its own id, no id stands twice, and none is queued and in flight.
  pub record IsApart (entries : List (K × V)) (flight : List (K × W)) : Type 0 where
    pub entries_distinct : Distinct entries
    pub flight_distinct : Distinct flight
    pub keyed : (id : K) (e : V) → get id entries ≡ some e → own e ≡ id
    pub apart : (id : K) (e : V) → get id entries ≡ some e → get id flight ≡ none

  module _ {entries : List (K × V)} {flight : List (K × W)} (v : IsApart entries flight)
      (id : K) where
    pub insert_new-IsApart :
        (e : V)
        → own e ≡ id
        → get id entries ≡ none
        → get id flight ≡ none
        → IsApart (insert_ordered id e entries) flight
    insert_new-IsApart e mine new landed = record {
      entries_distinct = insert_ordered-Distinct id e entries v.entries_distinct new;
      flight_distinct = v.flight_distinct;
      keyed = λ j f h. elim (insert_ordered-Was id j e f entries h) [
        | inl (same, is) ↦ ap own (sym is) ∙ mine ∙ same
        | inr (other, was) ↦ v.keyed j f was
      ];
      apart = λ j f h. elim (insert_ordered-Was id j e f entries h) [
        | inl (same, is) ↦ subst (λ t. get t flight ≡ none) same landed
        | inr (other, was) ↦ v.apart j f was
      ];
    }

    pub update-IsApart :
        (e old : V)
        → own e ≡ id
        → get id entries ≡ some old
        → IsApart (insert_entry id e entries) flight
    update-IsApart e old mine present = record {
      entries_distinct = insert_entry-Distinct id e entries v.entries_distinct;
      flight_distinct = v.flight_distinct;
      keyed = λ j f h. elim (insert_entry-Was id j e f entries h) [
        | inl (same, is) ↦ ap own (sym is) ∙ mine ∙ same
        | inr (other, was) ↦ v.keyed j f was
      ];
      apart = λ j f h. elim (insert_entry-Was id j e f entries h) [
        | inl (same, is) ↦ subst (λ t. get t flight ≡ none) same (v.apart id old present)
        | inr (other, was) ↦ v.apart j f was
      ];
    }

    pub remove-IsApart : IsApart (remove_key id entries) flight
    remove-IsApart = record {
      entries_distinct = remove_key-Distinct id entries v.entries_distinct;
      flight_distinct = v.flight_distinct;
      keyed = λ j f h. v.keyed j f (remove_key-Was id j f entries h).1;
      apart = λ j f h. v.apart j f (remove_key-Was id j f entries h).1;
    }

    pub release-IsApart : IsApart entries (remove_key id flight)
    release-IsApart = record {
      entries_distinct = v.entries_distinct;
      flight_distinct = remove_key-Distinct id flight v.flight_distinct;
      keyed = v.keyed;
      apart = λ j f h. ground (arith, get-remove_key id j flight, v.apart j f h);
    }

    pub fly-IsApart : (w : W) → IsApart (remove_key id entries) (insert_entry id w flight)
    fly-IsApart w = record {
      entries_distinct = remove_key-Distinct id entries v.entries_distinct;
      flight_distinct = insert_entry-Distinct id w flight v.flight_distinct;
      keyed = λ j f h. v.keyed j f (remove_key-Was id j f entries h).1;
      apart = λ j f h.
          let (other, was) = remove_key-Was id j f entries h in
          ground (arith, get-insert_entry id j w flight, v.apart j f was);
    }

  pub tail-IsApart :
      {k : K} {e : V} {rest : List (K × V)} {flight : List (K × W)}
      → IsApart ((k, e) ∷ rest) flight
      → IsApart rest flight
  tail-IsApart {k} {e} {rest} v = record {
    entries_distinct = v.entries_distinct.1;
    flight_distinct = v.flight_distinct;
    keyed = λ j f h. v.keyed j f (get_tail k j e f rest v.entries_distinct h);
    apart = λ j f h. v.apart j f (get_tail k j e f rest v.entries_distinct h);
  }
