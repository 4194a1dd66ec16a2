-- ===== src/Tests/Models.antt =====
-- Concrete libraries: maps as association lists, counters as a map of readings, whole bounds.
use connectivity_exporter.Prelude.{
  ℕ, ◌/◌, ◌==◌, ◌&&◌, ◌≡◌, refl, sym, ap, ◌∙◌, if◌then◌else◌, ite, true, false, [], ◌∷◌, Option,
  none, some, length, arith, ℕ_discrete,
}
use connectivity_exporter.Prelude.GoMap.{
  GoMap, get, put, delete, get-put, get-delete, IsMap, put-IsMap, delete-IsMap,
}
use connectivity_exporter.Prelude.GoString.{GoString-discrete}
use connectivity_exporter.Prelude.Float64.{◌+f◌, +f_exact}
use connectivity_exporter.Prelude.Results.{Reply, value, failure, external, found, ok, panic}
use connectivity_exporter.Metrics.CounterVec.{
  CounterVec, Labels, Labels-discrete, or_zero, is_ascii, all_text,
}
use connectivity_exporter.Packet.Ebpf.{BpfMap, BpfArray, Bpf, TupleKey-discrete}
use connectivity_exporter.Promextra.{Bounds}

abbrev pub reply_of : {V : Type 0} → Option V → Reply V
reply_of none = failure (external 0)
reply_of (some v) = value v

pub found-reply_of : {V : Type 0} (o : Option V) → found (reply_of o) ≡ o
found-reply_of none = refl
found-reply_of (some v) = refl

-- An empty map has no entry.
pub get-none : {K V : Type 0} (disc : Discrete K) (k : K) → get {V = V} disc [] k ≡ none
unfolding get
get-none disc k = refl

abbrev pub map_of : {K V : Type 0} (disc : Discrete K) → BpfMap K V disc
map_of {K} {V} disc = record {
  Map = (m : GoMap K V) × IsMap disc m;
  lookup = λ m k. reply_of (get disc m.0 k);
  put = λ m k v. ((put disc m.0 k v, put-IsMap disc m.0 k v m.1), none);
  delete = λ m k. (delete disc m.0 k, delete-IsMap disc m.0 k m.1);
  iterate = λ m. (m.0, none);
  lookup-put = λ m k j v e.
      found-reply_of _
      ∙ get-put disc m.0 k j v
      ∙ ap (λ o. ite (disc k j) (some v) o) (sym (found-reply_of _));
  lookup-delete = λ m k j.
      found-reply_of _
      ∙ get-delete disc m.0 k j
      ∙ ap (λ o. ite (disc k j) none o) (sym (found-reply_of _));
  get-iterate = λ m k e. sym (found-reply_of _);
  iterate-IsMap = λ m e. m.1;
}

abbrev pub array_of : (V : Type 0) → BpfArray V
array_of V = record {
  Map = (map_of {K = ℕ} {V = V} ℕ_discrete).Map;
  lookup = (map_of {K = ℕ} {V = V} ℕ_discrete).lookup;
  put = (map_of {K = ℕ} {V = V} ℕ_discrete).put;
  iterate = (map_of {K = ℕ} {V = V} ℕ_discrete).iterate;
  lookup-put = (map_of {K = ℕ} {V = V} ℕ_discrete).lookup-put;
  get-iterate = (map_of {K = ℕ} {V = V} ℕ_discrete).get-iterate;
  iterate-IsMap = (map_of {K = ℕ} {V = V} ℕ_discrete).iterate-IsMap;
}

abbrev pub bpf : Bpf
bpf = record {
  connection = map_of TupleKey-discrete;
  outer = array_of ℕ;
  inner = map_of GoString-discrete;
  clock = array_of ℕ;
}

abbrev pub vectors : CounterVec
vectors = record {
  Vec = ℕ × GoMap Labels ℕ;
  new_counter_vec = λ names. (length names, []);
  label_count = λ v. v.0;
  plus = ◌+f◌;
  plus_exact = +f_exact;
  value = λ v ls. get Labels-discrete v.1 ls;
  is_text = is_ascii;
  is_text-ascii = λ s h. h;
  add = λ v ls x.
      if length ls == v.0 && all_text is_ascii ls
      then ok (v.0, put Labels-discrete v.1 ls (or_zero (get Labels-discrete v.1 ls) +f x))
      else panic;
  delete_label_values =
      λ v ls. if length ls == v.0 then ((v.0, delete Labels-discrete v.1 ls), true) else (v, false);
  label_count-new = λ names. refl;
  value-new = λ names ls. get-none Labels-discrete ls;
  add_ok = λ v ls x h t. (
    (v.0, put Labels-discrete v.1 ls (or_zero (get Labels-discrete v.1 ls) +f x)),
    ground arith,
    refl,
    λ js. get-put Labels-discrete v.1 ls js _,
  );
  add_panic = λ v ls x h. ground arith;
  delete_mismatch = λ v ls h. ground arith;
}

-- Whole nanoseconds, and +Inf.
abbrev pub whole_bounds : Bounds
whole_bounds = record {
  Bound = Option ℕ;
  is_inf = λ b. elim b [ none ↦ true | some n ↦ false ];
  in_seconds = λ b. elim b [ none ↦ none | some n ↦ some (n / 1_000_000_000) ];
  of_uint64 = some;
  def_buckets = some 1 ∷ some 2 ∷ none ∷ [];
}
