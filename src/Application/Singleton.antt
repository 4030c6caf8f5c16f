-- ===== src/Application/Singleton.antt =====
-- The single object of src/Zrpcapplication.cc: GetInstance and deleteInstance, with what they do to the
-- heap. The mutex lets one thread at a time into GetInstance, so calls of threads are a list of calls.
use rpc_base_on_zookeeper.Base.{
  ℕ, zero, suc, ◌+◌, ◌≡◌, refl, Option, none, some, List, [], ◌∷◌, ◌==◌, if◌then◌else◌, arith,
}

-- `m_application`, the objects that are allocated, and how often `atexit` has registered
-- deleteInstance. The addresses are numbers, and `next` is the next one that `new` gives.
pub record Singleton : Type 0 where
  pub m_application : Option ℕ
  pub next : ℕ
  pub live : List ℕ
  pub handlers : ℕ

abbrev pub at_start : Singleton
at_start = record { m_application = none; next = 0; live = []; handlers = 0 }

unfoldable pub get_found : Option ℕ → Singleton → Singleton × ℕ
get_found (some p) s = (s, p)
get_found none s = (
  record s {
    m_application = some s.next;
    next = s.next + 1;
    live = s.next ∷ s.live;
    handlers = s.handlers + 1;
  },
  s.next,
)

unfoldable pub get_instance : Singleton → Singleton × ℕ
get_instance s = get_found s.m_application s

-- `delete`; `none` is the fault of an object that is not there.
unfoldable pub free : ℕ → List ℕ → Option (List ℕ)
free p [] = none
free p (q ∷ live) =
    let rest = free p live in
    if p == q then some live else elim rest [ none ↦ none | some more ↦ some (q ∷ more) ]

-- deleteInstance leaves the pointer as it is.
unfoldable pub delete_instance : Singleton → Option Singleton
delete_instance s = elim s.m_application [
  | none ↦ some s
  | some p ↦ elim (free p s.live) [ none ↦ none | some live ↦ some (record s { live = live }) ]
]

-- So many calls of GetInstance, and what they return.
unfoldable pub get_instances : ℕ → Singleton → Singleton × List ℕ
get_instances zero s = (s, [])
get_instances (suc n) s =
    let (s', p) = get_instance s in let (s'', ps) = get_instances n s' in (s'', p ∷ ps)

-- Calls of deleteInstance one after the other, as those of the handlers at the exit of the process.
unfoldable pub exit : ℕ → Singleton → Option Singleton
exit zero s = some s
exit (suc n) s = elim (delete_instance s) [ none ↦ none | some s' ↦ exit n s' ]

abbrev pub copies : ℕ → List ℕ
copies zero = []
copies (suc n) = 0 ∷ copies n

abbrev pub created : Singleton
created = record { m_application = some 0; next = 1; live = 0 ∷ []; handlers = 1 }

get_instances-created : (n : ℕ) → get_instances n created ≡ (created, copies n)
unfolding get_instances get_instance get_found
get_instances-created zero = refl
get_instances-created (suc n) = rw (get_instances-created n) refl

abbrev pub deleted : Singleton
deleted = record created { live = [] }

exit-created : (k : ℕ) → exit (suc k) created ≡ (if k == 0 then some deleted else none)
unfolding exit delete_instance free
exit-created zero = refl
exit-created (suc k) = ground arith

suc-add : (k : ℕ) → k + 1 ≡ suc k
suc-add k = omega arith

-- However many threads ask for the object: one is made, everybody gets that one, and the handler is
-- registered once. If nobody calls deleteInstance, which is public, the exit of the process deletes
-- the object once and leaves none; after any such call it deletes the object again, a fault.
pub get_instances-one :
    (n k : ℕ)
    → let (s, ps) = get_instances (suc n) at_start in
      (ps ≡ copies (suc n))
      × (s ≡ created)
      × (exit (k + s.handlers) s ≡ (if k == 0 then some deleted else none))
unfolding get_instances get_instance get_found
get_instances-one n k = rw (get_instances-created n, suc-add k) (refl, refl, exit-created k)
