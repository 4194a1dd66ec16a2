-- ===== src/Packet/Account/Expiry.antt =====
-- `deleteExpiredSNIs` and the time an SNI is remembered by.
use connectivity_exporter.Prelude.{
  ℕ, ◌+◌, ◌<◌, ◌≡◌, refl, ite, arith, Bool, true, false, List, [], ◌∷◌, Option, none, some, ltb,
  if◌then◌else◌,
}
use connectivity_exporter.Prelude.GoString.{GoString, GoString-discrete}
use connectivity_exporter.Prelude.GoMap.{
  GoMap, get, delete, get-put, get-delete, IsMap, put-IsMap, delete-IsMap,
}
use connectivity_exporter.Metrics.Inc.{expiration}
use connectivity_exporter.Packet.Connection.{TupleData, ConnKey}
use connectivity_exporter.Packet.Account.{
  State, account_for_connections, first_seen, expired_snis, delete_all, delete_expired_snis,
}

-- Whether more than the expiration has passed since the recorded time.
abbrev pub is_expired : ℕ → Option ℕ → Bool
is_expired now none = false
is_expired now (some t) = ltb (t + expiration) now

abbrev pub contains : List GoString → GoString → Bool
contains [] j = false
contains (n ∷ names) j = ite (GoString-discrete n j) true (contains names j)

get-delete_all :
    (names : List GoString) (m : GoMap GoString ℕ) (j : GoString)
    → get GoString-discrete (delete_all names m) j
      ≡ (if contains names j then none else get GoString-discrete m j)
unfolding delete_all
get-delete_all [] m j = refl
get-delete_all (n ∷ names) m j = ground (
  arith,
  get-delete_all names (delete GoString-discrete m n) j,
  get-delete GoString-discrete m n j,
)

contains-expired_snis :
    (now : ℕ) (m : GoMap GoString ℕ) (j : GoString)
    → IsMap GoString-discrete m
    → contains (expired_snis now m) j ≡ is_expired now (get GoString-discrete m j)
unfolding expired_snis get
contains-expired_snis now [] j h = refl
contains-expired_snis now ((n, t) ∷ m) j h = ground (arith, contains-expired_snis now m j h.1)

-- Over a map that holds each SNI once, exactly the SNIs recorded more than fifteen minutes ago are
-- forgotten and handed to `DeleteMetrics`; the others keep their time.
pub delete_expired_snis_lem :
    (now : ℕ) (s : State) (sni : GoString)
    → IsMap GoString-discrete s.snis
    → (get GoString-discrete (delete_expired_snis now s).0.snis sni ≡ (
        if is_expired now (get GoString-discrete s.snis sni)
        then none
        else get GoString-discrete s.snis sni))
      × (contains (delete_expired_snis now s).1 sni
          ≡ is_expired now (get GoString-discrete s.snis sni))
unfolding delete_expired_snis
delete_expired_snis_lem now s sni h = ground (
  arith,
  get-delete_all (expired_snis now s.snis) s.snis sni,
  contains-expired_snis now s.snis sni h,
)

delete_all-IsMap :
    (names : List GoString) (m : GoMap GoString ℕ)
    → IsMap GoString-discrete m
    → IsMap GoString-discrete (delete_all names m)
unfolding delete_all
delete_all-IsMap [] m h = h
delete_all-IsMap (n ∷ names) m h =
    delete_all-IsMap names (delete GoString-discrete m n) (delete-IsMap GoString-discrete m n h)

pub delete_expired_snis-IsMap :
    (now : ℕ) (s : State)
    → IsMap GoString-discrete s.snis
    → IsMap GoString-discrete (delete_expired_snis now s).0.snis
unfolding delete_expired_snis
delete_expired_snis-IsMap now s h = delete_all-IsMap (expired_snis now s.snis) s.snis h

-- One call of `accountForConnections`.
pub record Call : Type 0 where
  pub now : ℕ
  pub key : ConnKey
  pub previous : Bool
  pub stale : List TupleData
  pub succeeded : ℕ
  pub failed : ℕ

unfoldable pub account_all : List Call → State → State
account_all [] s = s
account_all (c ∷ cs) s =
    account_all cs (account_for_connections c.now s c.key c.previous c.stale c.succeeded c.failed).0

first_seen-keeps :
    (sni other : GoString) (now t : ℕ) (s : State)
    → get GoString-discrete s.snis sni ≡ some t
    → get GoString-discrete (first_seen other now s).snis sni ≡ some t
unfolding first_seen
first_seen-keeps sni other now t s h =
    ground (arith, get-put GoString-discrete s.snis other sni now)

pub first_seen-IsMap :
    (sni : GoString) (now : ℕ) (s : State)
    → IsMap GoString-discrete s.snis
    → IsMap GoString-discrete (first_seen sni now s).snis
unfolding first_seen
first_seen-IsMap sni now s h = ground (arith, put-IsMap GoString-discrete s.snis sni now h)

account_all-keeps :
    (calls : List Call) (sni : GoString) (t : ℕ) (s : State)
    → IsMap GoString-discrete s.snis
    → get GoString-discrete s.snis sni ≡ some t
    → IsMap GoString-discrete (account_all calls s).snis
      × (get GoString-discrete (account_all calls s).snis sni ≡ some t)
unfolding account_all account_for_connections
account_all-keeps [] sni t s m h = (m, h)
account_all-keeps (c ∷ calls) sni t s m h =
    account_all-keeps calls sni t (first_seen c.key.sni c.now s)
      (first_seen-IsMap c.key.sni c.now s m) (first_seen-keeps sni c.key.sni c.now t s h)

-- An SNI that is recorded at a time is forgotten and handed to `DeleteMetrics` once more than
-- fifteen minutes have passed, whatever calls of `accountForConnections` came in between, for that
-- SNI or another.
pub busy_sni_expires :
    (calls : List Call) (sni : GoString) (t now : ℕ) (s : State)
    → IsMap GoString-discrete s.snis
    → get GoString-discrete s.snis sni ≡ some t
    → t + expiration < now
    → (get GoString-discrete (delete_expired_snis now (account_all calls s)).0.snis sni ≡ none)
      × (contains (delete_expired_snis now (account_all calls s)).1 sni ≡ true)
busy_sni_expires calls sni t now s m h late =
    let (m', h') = account_all-keeps calls sni t s m h in
    ground (arith, delete_expired_snis_lem now (account_all calls s) sni m')
