-- ===== src/Fssync/Sender/Once.antt =====
-- `walk`, `queue` and the workers of pkg/fssync/diffcopy.go: what is sent, and how often.
use container_builder_shim.Common.{
  append_assoc, ℕ, zero, suc, ◌≤◌, ◌<◌, true, Bool-cases, Option, none, some, List, [], ◌∷◌, ◌++◌,
  ◌≡◌, ◌≢◌, refl, sym, ap, subst, inl, inr, All, All-append, All-mono, length, length-append,
  get_elem?, arith, nat_eq,
}
use container_builder_shim.Common.Bytes.{Bytes}
use container_builder_shim.Common.Dict.{
  Dict, lookup, insert, erase, lookup-insert_cases, lookup-erase_cases,
}
use container_builder_shim.Fssync.Sender.{
  Stat, file_can_request_data, SendHandle, Sender, next_id, walk_stat, queue_at, queue, Step, walks,
  queues, takes, Reaches, starts, steps,
}

-- The handle is of the entry that was announced under its id, which is a regular file.
abbrev pub IsAnnounced : List Stat → SendHandle → Type 0
IsAnnounced walked h =
    (st : Stat) × (get_elem? walked h.id ≡ some st)
    × (st.names ≡ h.names)
    × (file_can_request_data st.mode ≡ true)

-- No two handles have one id.
abbrev pub AreDistinct : List SendHandle → Type 0
AreDistinct [] = Unit
AreDistinct (h ∷ handles) = All (λ g. g.id ≢ h.id) handles × AreDistinct handles

abbrev pub handles_of : Sender → List SendHandle
handles_of s = s.taken ++ s.pipeline

-- The invariant, on the table, the entries and the handles.
pub record IsSound (files : Dict ℕ (List Bytes)) (walked : List Stat) (handles : List SendHandle)
    : Type 0 where
  pub listed :
      (id : ℕ) (names : List Bytes)
      → lookup id files ≡ some names
      → IsAnnounced walked (record { id = id; names = names }) × All (λ h. h.id ≢ id) handles
  pub announced : All (IsAnnounced walked) handles
  pub distinct : AreDistinct handles

get_elem-lt {ℓ} :
    {A : Type ℓ} (xs : List A) (i : ℕ) (x : A) → get_elem? xs i ≡ some x → i < length xs
get_elem-lt [] i x e = absurd cc
get_elem-lt (y ∷ xs) zero x e = omega arith
get_elem-lt (y ∷ xs) (suc i) x e = omega (arith, get_elem-lt xs i x e)

get_elem-append {ℓ} :
    {A : Type ℓ} (xs ys : List A) (i : ℕ) (x : A)
    → get_elem? xs i ≡ some x
    → get_elem? (xs ++ ys) i ≡ some x
get_elem-append [] ys i x e = absurd cc
get_elem-append (y ∷ xs) ys zero x e = e
get_elem-append (y ∷ xs) ys (suc i) x e = get_elem-append xs ys i x e

get_elem_last {ℓ} :
    {A : Type ℓ} (xs : List A) (x : A) → get_elem? (xs ++ x ∷ []) (length xs) ≡ some x
get_elem_last [] x = refl
get_elem_last (y ∷ xs) x = get_elem_last xs x

IsAnnounced-append :
    (walked : List Stat) (st : Stat) (h : SendHandle)
    → IsAnnounced walked h
    → IsAnnounced (walked ++ st ∷ []) h
IsAnnounced-append walked st h (st', at, path, is_file) =
    (st', get_elem-append walked (st ∷ []) h.id st' at, path, is_file)

AreDistinct-snoc :
    (handles : List SendHandle) (h : SendHandle)
    → AreDistinct handles
    → All (λ g. g.id ≢ h.id) handles
    → AreDistinct (handles ++ h ∷ [])
AreDistinct-snoc [] h d f = (tt, tt)
AreDistinct-snoc (g ∷ handles) h d f = (
  All-append (λ x. x.id ≢ g.id) handles (h ∷ []) d.0 ((λ e. f.0 (sym e)), tt),
  AreDistinct-snoc handles h d.1 f.1,
)

grown :
    (files : Dict ℕ (List Bytes)) (walked : List Stat) (handles : List SendHandle) (st : Stat)
    → IsSound files walked handles
    → IsSound files (walked ++ st ∷ []) handles
grown files walked handles st sound = record {
  listed = λ id names e.
      let (known, fresh) = sound.listed id names e in
      (IsAnnounced-append walked st (record { id = id; names = names }) known, fresh);
  announced =
      All-mono (IsAnnounced walked) (IsAnnounced (walked ++ st ∷ [])) (IsAnnounced-append walked st)
        handles sound.announced;
  distinct = sound.distinct;
}

with_file :
    (files : Dict ℕ (List Bytes)) (walked : List Stat) (handles : List SendHandle) (h : SendHandle)
    → IsSound files walked handles
    → IsAnnounced walked h
    → All (λ g. g.id ≢ h.id) handles
    → IsSound (insert h.id h.names files) walked handles
with_file files walked handles h sound known fresh = record {
  listed = λ id names e. elim (lookup-insert_cases id h.id h.names names files e) [
    | inr old ↦ sound.listed id names old
    | inl (same, path) ↦ (
      subst (λ i. IsAnnounced walked (record { id = i; names = names })) (sym same)
          (subst (λ p. IsAnnounced walked (record { id = h.id; names = p })) path known),
      subst (λ i. All (λ g. g.id ≢ i) handles) (sym same) fresh,
    )
  ];
  announced = sound.announced;
  distinct = sound.distinct;
}

-- No handle has the id of an entry that is still to come.
handles_earlier :
    (walked : List Stat) (handles : List SendHandle)
    → All (IsAnnounced walked) handles
    → All (λ g. g.id ≢ length walked) handles
handles_earlier walked handles h =
    All-mono (IsAnnounced walked) (λ g. g.id ≢ length walked)
      (λ g known e. let early = get_elem-lt walked g.id known.0 known.1 in omega (arith, early, e))
      handles h

walk_stat-IsSound :
    (s : Sender) (st : Stat)
    → length s.walked < 4294967296
    → IsSound s.files s.walked (handles_of s)
    → IsSound (walk_stat st s).files (walk_stat st s).walked (handles_of (walk_stat st s))
unfolding walk_stat
walk_stat-IsSound s st small sound =
    let more = grown s.files s.walked (handles_of s) st sound in
    elim (Bool-cases (file_can_request_data st.mode)) [
      | inr c ↦ rw c more
      | inl c ↦
          let id : next_id s ≡ length s.walked = omega (arith, small) in
          rw (c, id)
            (with_file s.files (s.walked ++ st ∷ []) (handles_of s)
              (record { id = length s.walked; names = st.names }) more
              (st, get_elem_last s.walked st, refl, c)
              (handles_earlier s.walked (handles_of s) sound.announced))
    ]

taken_out :
    (files : Dict ℕ (List Bytes)) (walked : List Stat) (handles : List SendHandle) (h : SendHandle)
    → lookup h.id files ≡ some h.names
    → IsSound files walked handles
    → IsSound (erase h.id files) walked (handles ++ h ∷ [])
taken_out files walked handles h here sound =
    let (known, fresh) = sound.listed h.id h.names here in
    record {
      listed = λ id names e.
          let (other, old) = lookup-erase_cases id h.id names files e in
          let (known', fresh') = sound.listed id names old in
          (
            known',
            All-append (λ g. g.id ≢ id) handles (h ∷ []) fresh' ((λ same. other (sym same)), tt),
          );
      announced = All-append (IsAnnounced walked) handles (h ∷ []) sound.announced (known, tt);
      distinct = AreDistinct-snoc handles h sound.distinct fresh;
    }

queue_at-IsSound :
    (s s' : Sender) (id : ℕ) (o : Option (List Bytes))
    → lookup id s.files ≡ o
    → queue_at id s o ≡ some s'
    → IsSound s.files s.walked (handles_of s)
    → IsSound s'.files s'.walked (handles_of s')
queue_at-IsSound s s' id none here e sound = absurd cc
queue_at-IsSound s s' id (some names) here e sound =
    let h : SendHandle = record { id = id; names = names } in
    let queued : Sender = record s { files = erase id s.files; pipeline = s.pipeline ++ h ∷ [] } in
    let same : queued ≡ s' = cc in
    let order = sym (append_assoc s.taken s.pipeline (h ∷ [])) in
    subst (λ u. IsSound u.files u.walked (handles_of u)) same
      (rw order (taken_out s.files s.walked (handles_of s) h here sound))

queue_at-walked :
    (s s' : Sender) (id : ℕ) (o : Option (List Bytes))
    → queue_at id s o ≡ some s'
    → s'.walked ≡ s.walked
queue_at-walked s s' id none e = absurd cc
queue_at-walked s s' id (some names) e =
    let queued : Sender = record s {
      files = erase id s.files;
      pipeline = s.pipeline ++ record { id = id; names = names } ∷ [];
    } in
    let same : queued ≡ s' = cc in sym (ap (λ u. u.walked) same)

-- The entries walked only grow.
abbrev Keeps : Sender → Sender → Type 0
Keeps s s' =
    length s'.walked ≤ 4294967296
    → (length s.walked ≤ 4294967296)
      × (IsSound s.files s.walked (handles_of s) → IsSound s'.files s'.walked (handles_of s'))

Step-Keeps : {s s' : Sender} → Step s s' → Keeps s s'
unfolding walk_stat queue
Step-Keeps (walks s st) small =
    let more = length-append s.walked (st ∷ []) in
    let before : length s.walked < 4294967296 = omega (arith, small, more) in
    (omega (arith, before), walk_stat-IsSound s st before)
Step-Keeps (queues s s' id e) small =
    let same = queue_at-walked s s' id (lookup id s.files) e in
    (omega (arith, ap length same, small), queue_at-IsSound s s' id (lookup id s.files) refl e)
Step-Keeps (takes s h rest e) small =
    let order = append_assoc s.taken (h ∷ []) rest in
    (small, λ sound. rw order (subst (λ p. IsSound s.files s.walked (s.taken ++ p)) e sound))

new-IsSound : IsSound [] [] []
unfolding lookup
new-IsSound = record { listed = λ id names e. absurd cc; announced = tt; distinct = tt }

-- In a state that `run` reaches, as long as no more than 2 ^ 32 entries were walked: the handles in
-- the channel and those that workers took have different ids, so no file is sent twice; each is of
-- the entry that was announced as number `id`, which is a regular file with the handle's path; and
-- the table has only such entries, none of which was queued.
pub Reaches-IsSound :
    {s : Sender}
    → Reaches s
    → length s.walked ≤ 4294967296
    → IsSound s.files s.walked (handles_of s)
Reaches-IsSound starts small = new-IsSound
Reaches-IsSound (steps s s' before step) small =
    let (smaller, keeps) = Step-Keeps step small in keeps (Reaches-IsSound before smaller)
