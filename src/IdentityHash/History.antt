-- ===== src/IdentityHash/History.antt =====
-- A sequence of calls on the table of an interpreter, against a finite map.
use retrace_cpython.Base.{
  ℕ, ◌≡◌, ◌≢◌, refl, ◌∙◌, ◌==◌, if◌then◌else◌, Option, none, some, Bool, true, false, List, [], ◌∷◌,
  Run, done, ◌>>=◌, inl, inr,
}
use retrace_cpython.IdentityHash.Table.{Slot, Malloc}
use retrace_cpython.IdentityHash.Operations.{
  set_identity_hash, delete_identity_hash, lookup_identity_hash, clear_identity_hash_table,
}
use retrace_cpython.IdentityHash.Sound.{IsObject, IsSound, slot_view, lookup-slot_view}
use retrace_cpython.IdentityHash.Delete.{found}
use retrace_cpython.IdentityHash.Map.{Maps, set_cases, delete-Maps}

-- A call, with what the allocator answers while it runs.
pub data Call : Type 0 where
  store : Malloc → ℕ → ℕ → Call
  remove : ℕ → Call
  lookup : ℕ → Call
  clear : Call

-- What a call returned.
pub data Reply : Type 0 where
  stored : Bool → Reply
  removed : Bool → Reply
  looked_up : Option ℕ → Reply
  cleared : Reply

-- The table as it stands after the call, and the reply.
unfoldable pub perform : Slot → Call → Run (Slot × Reply)
unfolding clear_identity_hash_table
perform slot (store malloc k v) =
    set_identity_hash malloc slot k v >>= λ r. done (r.0, stored (r.1))
perform slot (remove k) = delete_identity_hash slot k >>= λ r. done (r.0, removed (r.1))
perform slot (lookup k) = lookup_identity_hash slot k >>= λ r. done (slot, looked_up r)
perform slot clear = done (clear_identity_hash_table slot, cleared)

unfoldable pub perform_all : Slot → List Call → Run (Slot × List Reply)
perform_all slot [] = done (slot, [])
perform_all slot (call ∷ calls) =
    perform slot call >>= λ r. perform_all (r.0) calls >>= λ rest. done (rest.0, r.1 ∷ rest.1)

abbrev pub Contents : Type 0
Contents = ℕ → Option ℕ

-- What the table promises: a call on a finite map, with the reply given.
pub data Answers : Contents → Call → Reply → Contents → Type 0 where
  store_ok :
      {m : Contents} {malloc : Malloc} {k v : ℕ}
      → Answers m (store malloc k v) (stored true) (λ q. if k == q then some v else m q)
  store_failed :
      {m : Contents} {malloc : Malloc} {k v : ℕ} → Answers m (store malloc k v) (stored false) m
  remove_any :
      {m : Contents} {k : ℕ}
      → Answers m (remove k) (removed (found (m k))) (λ q. if k == q then none else m q)
  lookup_any : {m : Contents} {k : ℕ} → Answers m (lookup k) (looked_up (m k)) m
  clear_all : {m : Contents} → Answers m clear cleared (λ q. none)

pub data Replays : Contents → List Call → List Reply → Contents → Type 0 where
  nothing : {m : Contents} → Replays m [] [] m
  one :
      {m m' m'' : Contents} {call : Call} {calls : List Call} {reply : Reply} {replies : List Reply}
      → Answers m call reply m'
      → Replays m' calls replies m''
      → Replays m (call ∷ calls) (reply ∷ replies) m''

-- The calls name objects.
abbrev pub IsCall : Call → Type 0
IsCall (store malloc k v) = IsObject k
IsCall (remove k) = IsObject k
IsCall (lookup k) = IsObject k
IsCall clear = Unit

abbrev pub IsCalls : List Call → Type 0
IsCalls [] = Unit
IsCalls (call ∷ calls) = IsCall call × IsCalls calls

-- The table holds exactly what the map says of objects.
pub record Holds (slot : Slot) (m : Contents) : Type 0 where
  pub sound : IsSound slot
  pub reads : (q : ℕ) → q ≢ 0 → slot_view slot q ≡ m q

pub record Performed (slot : Slot) (m : Contents) (call : Call) : Type 0 where
  pub after : Slot
  pub reply : Reply
  pub contents : Contents
  pub run : perform slot call ≡ done (after, reply)
  pub answers : Answers m call reply contents
  pub holds : Holds after contents

Maps-Holds :
    {slot slot' : Slot} {m : Contents} {k : ℕ} {r : Option ℕ}
    → Holds slot m
    → Maps slot k r slot'
    → Holds slot' (λ q. if k == q then r else m q)
Maps-Holds h w = record { sound = w.sound; reads = λ q nz. w.reads q nz ∙ rw (h.reads q nz) refl }

pub perform_one :
    {slot : Slot} {m : Contents}
    → Holds slot m
    → (call : Call) → IsCall call
    → Performed slot m call
unfolding perform
perform_one {slot} {m} h (store malloc k v) o = elim (set_cases malloc h.sound o v) [
  | inl (run, full, why) ↦ record {
    after = slot;
    reply = stored false;
    contents = m;
    run = rw run;
    answers = store_failed;
    holds = h;
  }
  | inr (t, run, w) ↦ record {
    after = some t;
    reply = stored true;
    contents = λ q. if k == q then some v else m q;
    run = rw run;
    answers = store_ok;
    holds = Maps-Holds h w;
  }
]
perform_one {slot} {m} h (remove k) o =
    let (slot', run, w) = delete-Maps slot h.sound o in
    record {
      after = slot';
      reply = removed (found (m k));
      contents = λ q. if k == q then none else m q;
      run = rw (run, h.reads k o.nonzero);
      answers = remove_any;
      holds = Maps-Holds h w;
    }
perform_one {slot} {m} h (lookup k) o = record {
  after = slot;
  reply = looked_up (m k);
  contents = m;
  run = rw (lookup-slot_view slot k h.sound o, h.reads k o.nonzero);
  answers = lookup_any;
  holds = h;
}
perform_one {slot} {m} h clear o = record {
  after = none;
  reply = cleared;
  contents = λ q. none;
  run = refl;
  answers = clear_all;
  holds = record { sound = tt; reads = λ q nz. refl };
}

-- From a table that holds what a finite map says of every object, each sequence of set, delete,
-- lookup and clear calls on objects ends; the replies are those of the map under the same calls
-- (a set may fail and then changes nothing), and the table afterwards is well formed and holds
-- what the map then says.
pub perform_all-Replays :
    (calls : List Call)
    → IsCalls calls
    → {slot : Slot} {m : Contents} → Holds slot m
    → (slot' : Slot) × (replies : List Reply) × (m' : Contents) × (perform_all slot calls
        ≡ done (slot', replies))
      × Replays m calls replies m'
      × Holds slot' m'
unfolding perform_all
perform_all-Replays [] o {slot} {m} h = (slot, [], m, refl, nothing, h)
perform_all-Replays (call ∷ calls) o h =
    let p = perform_one h call (o.0) in
    let (slot', replies, m', run, log, h') = perform_all-Replays calls (o.1) p.holds in
    (slot', p.reply ∷ replies, m', rw (p.run, run), one p.answers log, h')
