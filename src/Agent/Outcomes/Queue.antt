-- ===== src/Agent/Outcomes/Queue.antt =====
-- The buffer as a queue: what was added was delivered or is still to be delivered, in the order of adding.
use mathlib.Core.List.{append_assoc, append-nil}
use mantlerd.Base.{
  ℕ, ◌-◌, ◌≤◌, ◌<◌, ◌≡◌, refl, sym, ap, ◌∙◌, subst, inl, inr, Bool, true, false, String, List, [],
  ◌∷◌, ◌++◌, Option, none, some, length, drop, length-append, drop-append, drop_all, length-drop,
  zero, suc, leb→le, ltb, leb, ◌==◌, Bool-cases, arith, str_eq, trim_space,
}
use mantlerd.Runtime.Start.{OutcomeEvent}
use mantlerd.Agent.Outcomes.{
  Buffer, max_events, persist, stamped, newest, add, snapshot, drop_prefix, load,
}

-- The buffer with a check-in that may be under way, and what has been delivered and added in all.
pub record Session : Type 0 where
  pub buffer : Buffer
  pub pending : Option (List OutcomeEvent)
  pub delivered : List OutcomeEvent
  pub added : List OutcomeEvent

abbrev pub start : Session
start = record { buffer = load []; pending = none; delivered = []; added = [] }

-- What runCheckIn does with the outcomes when the server has answered.
abbrev pub succeed : Session → Session
succeed s = elim s.pending [
  | none ↦ s
  | some sent ↦ record s {
    buffer = drop_prefix true (length sent) s.buffer;
    pending = none;
    delivered = s.delivered ++ sent;
  }
]

-- A step of the daemon. Adding may happen at any time, also during a check-in; check-ins come one after
-- another; a restart reads the file. The file can be written, and the buffer is not full.
pub data Step (s t : Session) : Type 0 where
  adding :
      (now : String) (e : OutcomeEvent)
      → length s.buffer.events < max_events
      → str_eq (trim_space e.event_type) "" ≡ false
      → t ≡ record s { buffer = add true now e s.buffer; added = s.added ++ stamped now e ∷ [] }
      → Step s t
  adding_blank :
      (now : String) (e : OutcomeEvent)
      → str_eq (trim_space e.event_type) "" ≡ true
      → t ≡ record s { buffer = add true now e s.buffer }
      → Step s t
  beginning : t ≡ record s { pending = some (snapshot s.buffer) } → Step s t
  failing : t ≡ record s { pending = none } → Step s t
  succeeding : t ≡ succeed s → Step s t
  restarting : t ≡ record s { buffer = load s.buffer.file; pending = none } → Step s t

pub data Reach : Session → Type 0 where
  here : Reach start
  next : {s t : Session} → Reach s → Step s t → Reach t

-- The check-in under way sends events that stand first in the buffer.
pub record Inv (s : Session) : Type 0 where
  pub accounted : s.added ≡ s.delivered ++ s.buffer.events
  pub saved : s.buffer.file ≡ s.buffer.events
  pub bounded : length s.buffer.events ≤ max_events
  pub first :
      (sent : List OutcomeEvent)
      → s.pending ≡ some sent
      → (rest : List OutcomeEvent) × (s.buffer.events ≡ sent ++ rest)

newest-bounded : (es : List OutcomeEvent) → length (newest es) ≤ max_events
newest-bounded es = elim (Bool-cases (ltb max_events (length es))) [
  | inl more ↦ rw more (omega (arith, length-drop (length es - max_events) es))
  | inr fits ↦ rw fits (ground arith)
]

add-events :
    (now : String) (e : OutcomeEvent) (b : Buffer)
    → length b.events < max_events
    → str_eq (trim_space e.event_type) "" ≡ false
    → add true now e b
      ≡ record { events = b.events ++ stamped now e ∷ []; file = b.events ++ stamped now e ∷ [] }
unfolding add persist
add-events now e b room named =
    let n = length-append b.events (stamped now e ∷ []) in
    let fits : ltb max_events (length (b.events ++ stamped now e ∷ [])) ≡ false =
      ground (arith, n) in
    rw (named, fits) refl

persist-events : (written : Bool) (b : Buffer) → (persist written b).events ≡ b.events
unfolding persist
persist-events true b = refl
persist-events false b = refl

suc-ne-zero : (n : ℕ) → (suc n == 0) ≡ false
suc-ne-zero n = ground arith

drop_prefix-events :
    (written : Bool) (n : ℕ) (b : Buffer) → (drop_prefix written n b).events ≡ drop n b.events
unfolding drop_prefix
drop_prefix-events written zero b = refl
drop_prefix-events written (suc n) b = elim (Bool-cases (leb (length b.events) (suc n))) [
  | inl all ↦
      rw (suc-ne-zero n, all)
        (persist-events written (record b { events = [] })
          ∙ sym (drop_all (suc n) b.events (leb→le _ _ all)))
  | inr some_left ↦
      rw (suc-ne-zero n, some_left)
        (persist-events written (record b { events = drop (suc n) b.events }))
]

drop_prefix-file :
    (n : ℕ) (b : Buffer)
    → b.file ≡ b.events
    → (drop_prefix true n b).file ≡ (drop_prefix true n b).events
unfolding drop_prefix persist
drop_prefix-file zero b f = f
drop_prefix-file (suc n) b f = rw (suc-ne-zero n) refl

drop_prefix-append :
    (sent rest : List OutcomeEvent) (b : Buffer)
    → b.events ≡ sent ++ rest
    → (drop_prefix true (length sent) b).events ≡ rest
drop_prefix-append sent rest b e =
    drop_prefix-events true (length sent) b ∙ ap (drop (length sent)) e ∙ drop-append sent rest

adding-Inv :
    (now : String) (e : OutcomeEvent) (s : Session)
    → Inv s
    → length s.buffer.events < max_events
    → str_eq (trim_space e.event_type) "" ≡ false
    → Inv (record s { buffer = add true now e s.buffer; added = s.added ++ stamped now e ∷ [] })
adding-Inv now e s v room named =
    let x = stamped now e in
    rw (add-events now e s.buffer room named) (record {
      accounted =
          ap (λ l. l ++ x ∷ []) v.accounted ∙ append_assoc s.delivered s.buffer.events (x ∷ []);
      saved = refl;
      bounded = omega (arith, length-append s.buffer.events (x ∷ []));
      first = λ sent p.
          let (rest, q) = v.first sent p in
          (rest ++ x ∷ [], ap (λ l. l ++ x ∷ []) q ∙ append_assoc sent rest (x ∷ []));
    })

add_blank :
    (now : String) (e : OutcomeEvent) (b : Buffer)
    → str_eq (trim_space e.event_type) "" ≡ true
    → add true now e b ≡ b
unfolding add
add_blank now e b h = rw h refl

succeed-Inv : (s : Session) → Inv s → Inv (succeed s)
succeed-Inv s v = go s.pending refl
  where
    after : Option (List OutcomeEvent) → Session
    after o = elim o [
      | none ↦ s
      | some sent ↦ record s {
        buffer = drop_prefix true (length sent) s.buffer;
        pending = none;
        delivered = s.delivered ++ sent;
      }
    ]

    go : (o : Option (List OutcomeEvent)) → s.pending ≡ o → Inv (after o)
    go none e = v
    go (some sent) e =
        let (rest, q) = v.first sent e in
        let left = drop_prefix-append sent rest s.buffer q in
        record {
          accounted =
              v.accounted
              ∙ ap (λ l. s.delivered ++ l) (q ∙ ap (λ l. sent ++ l) (sym left))
              ∙ sym
                  (append_assoc s.delivered sent (drop_prefix true (length sent) s.buffer).events);
          saved = drop_prefix-file (length sent) s.buffer v.saved;
          bounded = omega (arith, ap length left, ap length q, length-append sent rest, v.bounded);
          first = λ other p. absurd (cc p);
        }

Step-Inv : {s t : Session} → Step s t → Inv s → Inv t
unfolding snapshot load
Step-Inv {s} (adding now e room named q) v = subst Inv (sym q) (adding-Inv now e s v room named)
Step-Inv {s} (adding_blank now e blank q) v =
    subst Inv (sym (q ∙ λ i. record s { buffer = add_blank now e s.buffer blank i })) v
Step-Inv {s} (beginning q) v = subst Inv (sym q) (record {
  accounted = v.accounted;
  saved = v.saved;
  bounded = v.bounded;
  first = λ sent p. let same : s.buffer.events ≡ sent = cc p in ([], same ∙ sym (append-nil sent));
})
Step-Inv (failing q) v = subst Inv (sym q) (record {
  accounted = v.accounted;
  saved = v.saved;
  bounded = v.bounded;
  first = λ sent p. absurd (cc p);
})
Step-Inv {s} (succeeding q) v = subst Inv (sym q) (succeed-Inv s v)
Step-Inv {s} (restarting q) v = subst Inv (sym q) (record {
  accounted = v.accounted ∙ ap (λ l. s.delivered ++ l) (sym v.saved);
  saved = refl;
  bounded = omega (arith, ap length v.saved, v.bounded);
  first = λ sent p. absurd (cc p);
})

start-Inv : Inv start
unfolding load
start-Inv = record {
  accounted = refl;
  saved = refl;
  bounded = omega arith;
  first = λ sent p. absurd (cc p);
}

-- As long as the buffer is not full when an outcome is added and its file can be written, the outcomes
-- that were added are those that were delivered followed by those in the buffer, each once and in their
-- order, through failed check-ins and restarts; and the file holds what the buffer holds.
pub Reach-Inv : {s : Session} → Reach s → Inv s
Reach-Inv here = start-Inv
Reach-Inv (next r st) = Step-Inv st (Reach-Inv r)

add-bounded :
    (written : Bool) (now : String) (e : OutcomeEvent) (b : Buffer)
    → length b.events ≤ max_events
    → length (add written now e b).events ≤ max_events
unfolding add
add-bounded written now e b h = elim (Bool-cases (str_eq (trim_space e.event_type) "")) [
  | inl blank ↦ rw blank h
  | inr named ↦
      let longer = b.events ++ stamped now e ∷ [] in
      rw named (
        omega (
          arith,
          ap length (persist-events written (record b { events = newest longer })),
          newest-bounded longer,
        ))
]

-- Where an outcome is added to a full buffer while a check-in is under way, the success of the check-in
-- empties the buffer, also of that outcome, which was not sent.
drop_prefix-add_full :
    (written : Bool) (now : String) (e : OutcomeEvent) (b : Buffer)
    → length b.events ≡ max_events
    → (drop_prefix written (length (snapshot b)) (add written now e b)).events ≡ []
unfolding snapshot
drop_prefix-add_full written now e b full =
    drop_prefix-events written (length b.events) (add written now e b)
    ∙ drop_all (length b.events) (add written now e b).events
        (omega (arith, add-bounded written now e b (omega arith)))
