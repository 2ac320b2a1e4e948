-- ===== src/Storage/Memory/Probes.antt =====
-- `SystemMemory` of backend/app/storage/memory.py. What the files of the operating system hold is an
-- argument, and so is the answer of Windows. A source that raises is `none`.
use ephemeral_rooms.Prelude.{
  ℕ, ◌+◌, ◌-◌, ◌*◌, ◌^◌, ◌≡◌, refl, arith, inl, inr, Bool, not, ◌||◌, Option, none, some, List, [],
  ◌∷◌, ◌++◌, if◌then◌else◌, ◌==◌, ltb, Text, codes, same,
}
use ephemeral_rooms.Prelude.Int.{ℤ, pos, negsuc, pos_part, ◌+ℤ◌, ◌-ℤ◌, eq_ℤ, lt_ℤ}
use ephemeral_rooms.Storage.Memory.{unknown, IsReading}
use ephemeral_rooms.Util.Decimal.{int}
use ephemeral_rooms.Util.Sanitize.{is_space, cons_word}

-- 1 << 62
abbrev pub v1_unlimited : ℕ
v1_unlimited = 2 ^ 62

-- A file as text mode gives it, newlines translated: `unreadable` is an `OSError`, and `not_ascii` a
-- `UnicodeDecodeError`.
pub data FileRead : Type 0 where
  unreadable not_ascii : FileRead
  holds : Text → FileRead

abbrev pub or_unknown : Option ℤ → ℤ
or_unknown none = unknown
or_unknown (some z) = z

unfoldable pub read_int : FileRead → Option ℤ
read_int unreadable = some unknown
read_int not_ascii = none
read_int (holds raw) = some (or_unknown (int raw))

-- `line.partition(" ")`, without the separator.
abbrev pub partition_space : Text → Text × Text
partition_space [] = ([], [])
partition_space (c ∷ s) =
    let (name, rest) = partition_space s in if c == 32 then ([], s) else (c ∷ name, rest)

-- `name.rstrip(":")`
abbrev pub rstrip_colon : Text → Text
rstrip_colon [] = []
rstrip_colon (c ∷ s) = elim (rstrip_colon s) [
  | [] ↦ if c == 58 then [] else c ∷ []
  | d ∷ t ↦ c ∷ d ∷ t
]

-- `rest.split()[0]`; an `IndexError` is `none`.
abbrev pub first_word : Text → Option Text
first_word [] = none
first_word (c ∷ s) = let later = first_word s in if is_space c then later else some (run (c ∷ s))
  where
    run : Text → Text
    run [] = []
    run (d ∷ t) = let more = run t in if is_space d then [] else d ∷ more

-- `int(rest.split()[0])`, where it does not raise.
abbrev pub int_first : Option Text → Option ℤ
int_first none = none
int_first (some word) = int word

-- The loop over the lines of a file.
unfoldable pub field_in : Text → List Text → ℤ
unfolding int
field_in key [] = pos 0
field_in key (line ∷ lines) =
    let later = field_in key lines in
    let (name, rest) = partition_space line in
    if not (same (rstrip_colon name) key)
    then later
    else elim (int_first (first_word rest)) [ none ↦ later | some z ↦ z ]

-- The lines of a file, without the newline that ends each.
abbrev pub lines_from : Text → Text → List Text
lines_from line [] = cons_word line []
lines_from line (c ∷ s) =
    let ended = lines_from [] s in
    let running = lines_from (line ++ c ∷ []) s in if c == 10 then line ∷ ended else running

unfoldable pub stat_field : Text → FileRead → Option ℤ
unfolding field_in
stat_field key unreadable = some (pos 0)
stat_field key not_ascii = none
stat_field key (holds raw) = some (field_in key (lines_from [] raw))

-- The files of the control groups and of `/proc`.
pub record SystemFiles : Type 0 where
  pub memory_max : FileRead
  pub memory_current : FileRead
  pub memory_stat : FileRead
  pub limit_in_bytes : FileRead
  pub usage_in_bytes : FileRead
  pub v1_memory_stat : FileRead
  pub proc_meminfo : FileRead

-- `max(0, limit - used + reclaimable)`
abbrev pub left_of : ℤ → ℤ → ℤ → ℤ
left_of limit used reclaimable = pos (pos_part (limit -ℤ used +ℤ reclaimable))

-- What is left of a limit, by the files that hold the limit, the use and the reclaimable part.
abbrev pub left_by : (ℤ → Bool) → Option ℤ → Option ℤ → Option ℤ → Option ℤ
left_by no_limit (some limit) (some used) reclaimable =
    if no_limit limit || eq_ℤ used unknown
    then some unknown
    else elim reclaimable [ none ↦ none | some z ↦ some (left_of limit used z) ]
left_by no_limit _ _ reclaimable = none

unfoldable pub cgroup_v2 : SystemFiles → Option ℤ
cgroup_v2 f =
    left_by (λ limit. eq_ℤ limit unknown) (read_int f.memory_max) (read_int f.memory_current)
      (stat_field (codes "inactive_file") f.memory_stat)

unfoldable pub cgroup_v1 : SystemFiles → Option ℤ
cgroup_v1 f =
    left_by (λ limit. eq_ℤ limit unknown || not (lt_ℤ limit (pos v1_unlimited)))
      (read_int f.limit_in_bytes) (read_int f.usage_in_bytes)
      (stat_field (codes "total_inactive_file") f.v1_memory_stat)

abbrev pub from_kb : ℤ → ℤ
from_kb (pos kb) = if ltb 0 kb then pos (kb * 1024) else unknown
from_kb (negsuc n) = unknown

abbrev pub map_kb : Option ℤ → Option ℤ
map_kb none = none
map_kb (some z) = some (from_kb z)

unfoldable pub meminfo : SystemFiles → Option ℤ
meminfo f = map_kb (stat_field (codes "MemAvailable") f.proc_meminfo)

-- The first source that answers, and answers with zero or more.
unfoldable pub first_known : List (Option ℤ) → ℤ
first_known [] = unknown
first_known (none ∷ sources) = first_known sources
first_known (some (pos n) ∷ sources) = pos n
first_known (some (negsuc n) ∷ sources) = first_known sources

unfoldable pub probe : SystemFiles → Option ℤ → ℤ
probe f windows = first_known (cgroup_v2 f ∷ cgroup_v1 f ∷ meminfo f ∷ windows ∷ [])

first_known-IsReading : (sources : List (Option ℤ)) → IsReading (first_known sources)
unfolding first_known
first_known-IsReading [] = inl refl
first_known-IsReading (none ∷ sources) = first_known-IsReading sources
first_known-IsReading (some (pos n) ∷ sources) = inr (n, refl)
first_known-IsReading (some (negsuc n) ∷ sources) = first_known-IsReading sources

left_by_lem :
    (l u r : ℕ)
    → left_by (λ limit. eq_ℤ limit unknown) (some (pos l)) (some (pos u)) (some (pos r))
      ≡ some (pos (l + r - u))
left_by_lem l u r = ground arith

pub probe-IsReading : (f : SystemFiles) (windows : Option ℤ) → IsReading (probe f windows)
unfolding probe
probe-IsReading f windows = first_known-IsReading _

read_int-holds : (raw : Text) (z : ℤ) → int raw ≡ some z → read_int (holds raw) ≡ some z
unfolding read_int
read_int-holds raw z e = rw e refl

cgroup_v2_lem :
    (f : SystemFiles) (limit used : Text) (l u r : ℕ)
    → f.memory_max ≡ holds limit
    → int limit ≡ some (pos l)
    → f.memory_current ≡ holds used
    → int used ≡ some (pos u)
    → stat_field (codes "inactive_file") f.memory_stat ≡ some (pos r)
    → cgroup_v2 f ≡ some (pos (l + r - u))
unfolding cgroup_v2
cgroup_v2_lem f limit used l u r e e' h h' stat =
    rw (e, h, read_int-holds limit (pos l) e', read_int-holds used (pos u) h', stat)
      (left_by_lem l u r)

pub probe_limited :
    (f : SystemFiles) (windows : Option ℤ) (limit used : Text) (l u r : ℕ)
    → f.memory_max ≡ holds limit
    → int limit ≡ some (pos l)
    → f.memory_current ≡ holds used
    → int used ≡ some (pos u)
    → stat_field (codes "inactive_file") f.memory_stat ≡ some (pos r)
    → probe f windows ≡ pos (l + r - u)
unfolding probe first_known
probe_limited f windows limit used l u r e e' h h' stat =
    rw (cgroup_v2_lem f limit used l u r e e' h h' stat) refl
