-- ===== src/Packet/Tracker/Collected.antt =====
-- What holds of each count in a slot holds of each key's counts that a tick collects.
use connectivity_exporter.Prelude.{◌≡◌, subst, arith, List, [], ◌∷◌, some, All}
use connectivity_exporter.Prelude.GoMap.{GoMap, get, put, get-put}
use connectivity_exporter.Prelude.GoString.{GoString}
use connectivity_exporter.Prelude.Results.{ok-injective, ok, >>=-eq-ok}
use connectivity_exporter.Packet.Connection.{ConnKey, ConnKey-discrete}
use connectivity_exporter.Packet.Bytes.Addresses.{conn_key_of_bytes}
use connectivity_exporter.Packet.Ebpf.{Stats}
use connectivity_exporter.Packet.Tracker.{collect_stats}

module _ (P : Stats → Type 0) where
  unfoldable pub AllStats : GoMap ConnKey Stats → Type 0
  AllStats m = (k : ConnKey) (v : Stats) → get ConnKey-discrete m k ≡ some v → P v

  put-AllStats :
      (m : GoMap ConnKey Stats) (k : ConnKey) (v : Stats)
      → P v
      → AllStats m
      → AllStats (put ConnKey-discrete m k v)
  unfolding AllStats
  put-AllStats m k v pos all j w h = ground (arith, get-put ConnKey-discrete m k j v, all j w)

  from-AllStats :
      (entries : List (GoString × Stats)) (acc out : GoMap ConnKey Stats)
      → All (λ e. P e.1) entries
      → AllStats acc
      → collect_stats entries acc ≡ ok out
      → AllStats out
  unfolding collect_stats
  from-AllStats [] acc out pos all e = subst AllStats (ok-injective e) all
  from-AllStats ((k, v) ∷ entries) acc out pos all e =
      let (key, q, more) =
        >>=-eq-ok (conn_key_of_bytes k)
          (λ key. collect_stats entries (put ConnKey-discrete acc key v)) e in
      from-AllStats entries (put ConnKey-discrete acc key v) out pos.1
        (put-AllStats acc key v pos.0 all) more

  none-AllStats : AllStats []
  unfolding AllStats get
  none-AllStats k v h = absurd (cc h)

  pub collect_stats-AllStats :
      (entries : List (GoString × Stats)) (out : GoMap ConnKey Stats)
      → All (λ e. P e.1) entries
      → collect_stats entries [] ≡ ok out
      → AllStats out
  collect_stats-AllStats entries out pos e = from-AllStats entries [] out pos none-AllStats e
