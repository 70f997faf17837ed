-- ===== src/Store/Mailbox/Evictions.antt =====
-- What an eviction of read messages removes, and what it spares (ports/in-memory-store.ts).
use delta_agents.Common.{
  ℕ, ◌+◌, ◌-◌, min, String, ◌≡◌, refl, ap, sym, suc, ltb, filter-All, All-map, All-both, Bool, true,
  false, not, ◌&&◌, List, [], ◌∷◌, ◌++◌, ◌==◌, arith, eq_iff, Bool-cases, inl, inr, leb, eqb,
  is_some, length, filter, includes, All, All-sort, All-take, All-filter, length-append,
  length-filter, filter-append, length-take,
}
use delta_agents.Common.Dict.{Dict}
use delta_agents.Types.{Message}
use delta_agents.Store.{Store}
use delta_agents.Store.Mailbox.{
  all_messages, live_messages, read_oldest_first, victims, ids_of, keep_without, kept_bucket,
  drop_ids, evicted, evict_read_messages,
}

-- keeping as many as there are keeps all of them
keeps_all :
    (p : Message → Bool) (ms : List Message) → length (filter p ms) ≡ length ms → filter p ms ≡ ms
unfolding filter
keeps_all p [] e = refl
keeps_all p (m ∷ ms) e = ground (arith, keeps_all p ms, length-filter p ms)

all_messages-kept_bucket :
    (task_id : String) (ms : List Message) (d : Dict (List Message))
    → all_messages (kept_bucket task_id ms d) ≡ ms ++ all_messages d
unfolding all_messages
all_messages-kept_bucket task_id [] d = refl
all_messages-kept_bucket task_id (m ∷ ms) d = refl

drop_ids_lem :
    (ids : List String) (d : Dict (List Message))
    → (all_messages (drop_ids ids d).1 ≡ keep_without ids (all_messages d))
      × ((drop_ids ids d).0 + length (all_messages (drop_ids ids d).1) ≡ length (all_messages d))
unfolding drop_ids all_messages filter
drop_ids_lem ids [] = (refl, refl)
drop_ids_lem ids ((task_id, ms) ∷ d) =
    let (same, number) = drop_ids_lem ids d in
    let p = λ (m : Message). not (includes ids m.id) in
    let apart = filter-append p ms (all_messages d) in
    let fewer = length-filter p ms in
    elim (Bool-cases (eqb (length (keep_without ids ms)) (length ms))) [
      | inl e ↦
          let whole = keeps_all p ms (ground arith) in
          rw e (
            rw (same, apart, whole) refl,
            omega (
              arith,
              length-append ms (all_messages (drop_ids ids d).1),
              length-append ms (all_messages d),
              number,
            ),
          )
      | inr e ↦
          let kept = all_messages-kept_bucket task_id (keep_without ids ms) (drop_ids ids d).1 in
          rw (e, kept, apart, same)
            (
              refl,
              omega (
                arith,
                length-append (keep_without ids ms) (keep_without ids (all_messages d)),
                length-append ms (all_messages d),
                number,
                ap length same,
                fewer,
              ),
            )
    ]

-- Whatever holds of every stored message holds of the victims, which are read messages of the receiver
-- that were not recalled.
abbrev pub IsVictim : String → Message → Type 0
IsVictim receiver m =
    (m.receiver ≡ receiver) × (is_some m.read_at ≡ true) × (is_some m.recalled_at ≡ false)

victims-IsVictim :
    (receiver : String) (cap : ℕ) (d : Dict (List Message))
    → All (IsVictim receiver) (victims receiver cap d)
unfolding victims read_oldest_first live_messages
victims-IsVictim receiver cap d =
    let live = λ (m : Message). m.receiver == receiver && not (is_some m.recalled_at) in
    let was_read = λ (m : Message). is_some m.read_at in
    let all = all_messages d in
    let both =
      All-both (λ m. live m ≡ true) (λ m. was_read m ≡ true) (filter was_read (filter live all))
        (All-filter (λ m. live m ≡ true) was_read (filter live all) (filter-All live all))
        (filter-All was_read (filter live all)) in
    All-take (IsVictim receiver)
      (min (length (live_messages receiver d) - cap) (length (read_oldest_first receiver d)))
      (read_oldest_first receiver d)
      (All-sort (IsVictim receiver) (λ a b. ltb a.created_at b.created_at)
        (filter was_read (filter live all))
        (All-map (λ m. (live m ≡ true) × (was_read m ≡ true)) (IsVictim receiver)
          (λ m h.
            let (is_live, is_read) = h in
            (ground (arith, eq_iff m.receiver receiver), is_read, ground arith))
          (filter was_read (filter live all)) both))

keep_without-none : (ms : List Message) → keep_without [] ms ≡ ms
unfolding filter includes
keep_without-none [] = refl
keep_without-none (m ∷ ms) = ap (λ l. m ∷ l) (keep_without-none ms)

ids_of-none : (ms : List Message) → length ms ≡ 0 → ids_of ms ≡ []
ids_of-none [] e = refl
ids_of-none (m ∷ ms) e = absurd (ground arith)

length-ids_of : (ms : List Message) → length (ids_of ms) ≡ length ms
length-ids_of [] = refl
length-ids_of (m ∷ ms) = ap suc (length-ids_of ms)

length-victims :
    (receiver : String) (cap : ℕ) (d : Dict (List Message))
    → length (victims receiver cap d)
      ≡ min (length (live_messages receiver d) - cap) (length (read_oldest_first receiver d))
unfolding victims
length-victims receiver cap d =
    let excess = length (live_messages receiver d) - cap in
    let oldest = read_oldest_first receiver d in
    omega (arith, length-take (min excess (length oldest)) oldest)

-- without a victim nothing is removed
spared :
    (receiver : String) (cap : ℕ) (d : Dict (List Message))
    → length (victims receiver cap d) ≡ 0
    → all_messages d ≡ keep_without (ids_of (victims receiver cap d)) (all_messages d)
spared receiver cap d none_there =
    rw (ids_of-none (victims receiver cap d) none_there) (sym (keep_without-none (all_messages d)))

evicted_lem :
    (receiver : String) (cap : ℕ) (d : Dict (List Message))
    → (all_messages (evicted receiver cap d).1
        ≡ keep_without (ids_of (victims receiver cap d)) (all_messages d))
      × ((evicted receiver cap d).0 + length (all_messages (evicted receiver cap d).1)
          ≡ length (all_messages d))
unfolding evicted
evicted_lem receiver cap d =
    let vs = victims receiver cap d in
    let number = length-victims receiver cap d in
    elim (Bool-cases (leb (length (live_messages receiver d)) cap)) [
      | inl few ↦ rw few (spared receiver cap d (ground arith), omega arith)
      | inr many ↦ rw many (elim (Bool-cases (eqb (length (ids_of vs)) 0)) [
        | inl e ↦ rw e (spared receiver cap d (ground (arith, length-ids_of vs)), omega arith)
        | inr e ↦ rw e (drop_ids_lem (ids_of vs) d)
      ])
    ]

-- An eviction removes exactly the messages with the ids of the victims and returns their number. The
-- victims are read messages of the receiver that were not recalled, as many as are over the cap or as
-- there are read ones, and none at all where the receiver has at most `cap` live messages.
pub evict_read_messages_lem :
    {S : Type 0}
    → (receiver : String) (cap : ℕ) (s : Store S)
    → let d = s.messages_by_task in
      let s' = (evict_read_messages receiver cap s).1 in
      All (IsVictim receiver) (victims receiver cap d)
      × (length (victims receiver cap d)
          ≡ min (length (live_messages receiver d) - cap) (length (read_oldest_first receiver d)))
      × (all_messages s'.messages_by_task
          ≡ keep_without (ids_of (victims receiver cap d)) (all_messages d))
      × ((evict_read_messages receiver cap s).0 + length (all_messages s'.messages_by_task)
          ≡ length (all_messages d))
unfolding evict_read_messages evicted
evict_read_messages_lem receiver cap s =
    let d = s.messages_by_task in
    let (same, number) = evicted_lem receiver cap d in
    (victims-IsVictim receiver cap d, length-victims receiver cap d, same, number)
