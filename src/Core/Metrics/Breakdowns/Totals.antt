-- ===== src/Core/Metrics/Breakdowns/Totals.antt =====
-- The rows of a breakdown add up to the activities.
use vex_agentscan.Base.{
  ℕ, ◌+◌, String, Bool, List, [], ◌∷◌, Option, some, arith, map, sort, insert_sorted, length,
  lookup, put, ◌≡◌, refl, ◌==◌, string_eq, Option-cases, Bool-cases, inl, inr, ◌>>=◌,
}
use vex_agentscan.Base.Int.{ℤ, pos, pos_part, neg_part, ◌+ℤ◌, int_laws, +ℤ_zero}
use vex_agentscan.Core.Metrics.{AgentActivity}
use vex_agentscan.Core.Metrics.Decimal.{decimal_from_text}
use vex_agentscan.Core.Metrics.Decimal.RoundTrip.{decimal_from_text-decimal_to_text}
use vex_agentscan.Core.Metrics.Breakdowns.{
  ProtocolVolume, priced_volume_of, add_volume, ProtocolTally, by_protocol, tally_of,
  protocol_tallies, protocol_volume, heavier_volume_first, protocol_breakdown,
}

abbrev total_count : List ProtocolTally → ℕ
total_count [] = 0
total_count (t ∷ ts) = t.tally.tx_count + total_count ts

abbrev total_volume : List ProtocolTally → ℤ
total_volume [] = pos 0
total_volume (t ∷ ts) = t.tally.volume +ℤ total_volume ts

put-count :
    (t : ProtocolTally) (ts : List ProtocolTally)
    → total_count (put by_protocol t ts) + (tally_of (lookup by_protocol t.protocol ts)).tx_count
      ≡ total_count ts + t.tally.tx_count
unfolding lookup put
put-count t [] = omega arith
put-count t (q ∷ ts) = ground (arith, put-count t ts)

parts_of_eq : (a b : ℤ) → a ≡ b → pos_part a + neg_part b ≡ pos_part b + neg_part a
parts_of_eq a b h = rw h refl

add_left : (q a b c v : ℤ) → a +ℤ b ≡ c +ℤ v → q +ℤ a +ℤ b ≡ q +ℤ c +ℤ v
add_left q a b c v h = omega (int_laws, parts_of_eq (a +ℤ b) (c +ℤ v) h)

cancel : (x a c v : ℤ) → x +ℤ a ≡ c +ℤ (a +ℤ v) → x ≡ c +ℤ v
cancel x a c v h = omega (int_laws, parts_of_eq (x +ℤ a) (c +ℤ (a +ℤ v)) h)

zero_+ℤ : (a : ℤ) → pos 0 +ℤ a ≡ a
zero_+ℤ a = omega int_laws

add_assoc : (a b c : ℤ) → a +ℤ b +ℤ c ≡ a +ℤ (b +ℤ c)
add_assoc a b c = omega int_laws

put-volume :
    (t : ProtocolTally) (ts : List ProtocolTally)
    → total_volume (put by_protocol t ts) +ℤ (tally_of (lookup by_protocol t.protocol ts)).volume
      ≡ total_volume ts +ℤ t.tally.volume
unfolding lookup put
put-volume t [] = omega int_laws
put-volume t (q ∷ ts) = elim (Bool-cases (q.protocol == t.protocol)) [
  | inl same ↦ rw same (omega int_laws)
  | inr other ↦ rw other (add_left q.tally.volume _ _ _ _ (put-volume t ts))
]

insert-totals :
    (before : ProtocolTally → ProtocolTally → Bool) (t : ProtocolTally) (ts : List ProtocolTally)
    → (total_count (insert_sorted before t ts) ≡ t.tally.tx_count + total_count ts)
      × (total_volume (insert_sorted before t ts) ≡ t.tally.volume +ℤ total_volume ts)
unfolding insert_sorted
insert-totals before t [] = (refl, refl)
insert-totals before t (q ∷ ts) =
    let (counts, volumes) = insert-totals before t ts in
    elim (Bool-cases (before t q)) [
      | inl first ↦ rw first (refl, refl)
      | inr later ↦ rw later (omega (arith, counts), rw volumes (omega int_laws))
    ]

sort-totals :
    (before : ProtocolTally → ProtocolTally → Bool) (ts : List ProtocolTally)
    → (total_count (sort before ts) ≡ total_count ts)
      × (total_volume (sort before ts) ≡ total_volume ts)
unfolding sort
sort-totals before [] = (refl, refl)
sort-totals before (t ∷ ts) =
    let (counts, volumes) = sort-totals before ts in
    let (inserted, added) = insert-totals before t (sort before ts) in
    (omega (arith, counts, inserted), rw (added, volumes) refl)

-- The volumes of the activities, added up; `none` where one is malformed.
abbrev pub summed_volume : List AgentActivity → ℤ → Option ℤ
summed_volume [] acc = some acc
summed_volume (a ∷ activities) acc = priced_volume_of a >>= λ v. summed_volume activities (acc +ℤ v)

-- The USD texts of the rows, read and added up.
abbrev pub read_volume : List ProtocolVolume → ℤ → Option ℤ
read_volume [] acc = some acc
read_volume (r ∷ rows) acc = decimal_from_text r.volume_usd >>= λ v. read_volume rows (acc +ℤ v)

abbrev pub read_count : List ProtocolVolume → ℕ
read_count [] = 0
read_count (r ∷ rows) = r.tx_count + read_count rows

tallied : String → ℤ → List ProtocolTally → List ProtocolTally
tallied p volume ts =
    put by_protocol
      (record { protocol = p; tally = add_volume (tally_of (lookup by_protocol p ts)) volume }) ts

-- What a write of a tally changes in the totals.
tallied-totals :
    (p : String) (volume : ℤ) (ts : List ProtocolTally)
    → (total_count (tallied p volume ts) ≡ total_count ts + 1)
      × (total_volume (tallied p volume ts) ≡ total_volume ts +ℤ volume)
unfolding tallied
tallied-totals p volume ts =
    let held = tally_of (lookup by_protocol p ts) in
    let t : ProtocolTally = record { protocol = p; tally = add_volume held volume } in
    (
      omega (arith, put-count t ts),
      cancel (total_volume (put by_protocol t ts)) held.volume (total_volume ts) volume
          (put-volume t ts),
    )

tallies-totals :
    (activities : List AgentActivity) (ts result : List ProtocolTally)
    → protocol_tallies activities ts ≡ some result
    → (total_count result ≡ total_count ts + length activities)
      × (summed_volume activities (total_volume ts) ≡ some (total_volume result))
unfolding protocol_tallies tallied
tallies-totals [] ts result h = ground arith
tallies-totals (a ∷ activities) ts result h = elim (Option-cases (priced_volume_of a)) [
  | inl malformed ↦ absurd (ground arith)
  | inr (v, priced) ↦
      let (count, volume) = tallied-totals a.protocol v ts in
      let (counts, volumes) =
        tallies-totals activities (tallied a.protocol v ts) result (ground arith) in
      (omega (arith, count, counts), rw priced (ground (arith, volume, volumes)))
]

printed-totals :
    (ts : List ProtocolTally) (acc : ℤ)
    → (read_count (map protocol_volume ts) ≡ total_count ts)
      × (read_volume (map protocol_volume ts) acc ≡ some (acc +ℤ total_volume ts))
printed-totals [] acc = (refl, rw (+ℤ_zero acc) refl)
printed-totals (t ∷ ts) acc =
    let (counts, volumes) = printed-totals ts (acc +ℤ t.tally.volume) in
    (
      omega (arith, counts),
      rw
          (
            decimal_from_text-decimal_to_text t.tally.volume,
            volumes,
            add_assoc acc t.tally.volume (total_volume ts),
          )
          refl,
    )

-- The counts of the rows of a breakdown by protocol add up to the number of the activities, and
-- their printed volumes, read back, add up to the volumes of the activities.
pub protocol_breakdown-totals :
    (locale_before : String → String → Bool) (activities : List AgentActivity)
    (rows : List ProtocolVolume)
    → protocol_breakdown locale_before activities ≡ some rows
    → (read_count rows ≡ length activities)
      × (read_volume rows (pos 0) ≡ summed_volume activities (pos 0))
unfolding protocol_breakdown
protocol_breakdown-totals locale_before activities rows h =
    elim (Option-cases (protocol_tallies activities [])) [
      | inl malformed ↦ absurd (ground arith)
      | inr (ts, tallied) ↦
          let before : ProtocolTally → ProtocolTally → Bool = λ l r.
            heavier_volume_first l.tally.volume r.tally.volume
              (locale_before l.protocol r.protocol) in
          let (counts, volumes) = tallies-totals activities [] ts tallied in
          let (same, kept) = sort-totals before ts in
          let (read, printed) = printed-totals (sort before ts) (pos 0) in
          ground
            (arith, tallied, counts, volumes, same, kept, read, printed, zero_+ℤ (total_volume ts))
    ]
