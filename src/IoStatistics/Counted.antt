-- ===== src/IoStatistics/Counted.antt =====
-- The states in which source/octf/analytics/statistics/IoStatistics.cpp counts without an exception.
use open_cas_telemetry_frame.Prelude.{
  ℕ, ◌+◌, ◌*◌, ◌≤◌, ◌<◌, ◌≡◌, ◌∙◌, List, [], ◌∷◌, arith, length, u64_mod, add64, ◌&&◌, ◌==◌,
}
use open_cas_telemetry_frame.Distribution.{Distribution, Added, added, thrown, endless}
use open_cas_telemetry_frame.Distribution as Distribution
use open_cas_telemetry_frame.Distribution.Counting.{IsDistribution, add-Adds}
use open_cas_telemetry_frame.Distribution.Level.{exact}
use open_cas_telemetry_frame.IoStatistics.{
  Stats, IoStatistics, io_types, Which, sizes, latencies, depths, get_which, put_which, false,
}

-- The distributions are well-formed, of the base 2, and have counted no more than `n` says.
abbrev pub IsValid : (Which → ℕ) → Stats → Type 0
IsValid n x =
    (w : Which)
    → IsDistribution (get_which w x) × ((get_which w x).base ≡ 2) × ((get_which w x).count ≤ n w)

abbrev pub AreValid : (Which → ℕ) → List Stats → Type 0
AreValid n [] = Unit {0}
AreValid n (x ∷ xs) = IsValid n x × AreValid n xs

-- All of them are, the array has its size, and an enabled LBA histogram has ranges of some size.
abbrev pub IsSound : (Which → ℕ) → IoStatistics → Type 0
IsSound n s =
    AreValid n s.statistics
    × IsValid n s.total
    × IsValid n s.flush
    × (length s.statistics ≡ io_types)
    × ((s.lba_hist_enabled && s.lba_hist_range_size == 0) ≡ false)

abbrev pub bump : Which → (Which → ℕ) → Which → ℕ
bump sizes n sizes = n sizes + 1
bump sizes n latencies = n latencies
bump sizes n depths = n depths
bump latencies n sizes = n sizes
bump latencies n latencies = n latencies + 1
bump latencies n depths = n depths
bump depths n sizes = n sizes
bump depths n latencies = n latencies
bump depths n depths = n depths + 1

pub bump_le : (w v : Which) (n : Which → ℕ) → n v ≤ bump w n v
bump_le sizes sizes n = omega arith
bump_le sizes latencies n = omega arith
bump_le sizes depths n = omega arith
bump_le latencies sizes n = omega arith
bump_le latencies latencies n = omega arith
bump_le latencies depths n = omega arith
bump_le depths sizes n = omega arith
bump_le depths latencies n = omega arith
bump_le depths depths n = omega arith

pub weaken :
    (n n' : Which → ℕ) (x : Stats) → ((w : Which) → n w ≤ n' w) → IsValid n x → IsValid n' x
weaken n n' x le h w = let (d, b, c) = h w in (d, b, omega (arith, le w, c))

put-IsValid :
    (w : Which) (n : Which → ℕ) (d : Distribution) (x : Stats)
    → IsDistribution d
    → d.base ≡ 2
    → d.count ≤ n w + 1
    → IsValid n x
    → IsValid (bump w n) (put_which w d x)
put-IsValid sizes n d x i b c h sizes = (i, b, c)
put-IsValid sizes n d x i b c h latencies = h latencies
put-IsValid sizes n d x i b c h depths = h depths
put-IsValid latencies n d x i b c h sizes = h sizes
put-IsValid latencies n d x i b c h latencies = (i, b, c)
put-IsValid latencies n d x i b c h depths = h depths
put-IsValid depths n d x i b c h sizes = h sizes
put-IsValid depths n d x i b c h latencies = h latencies
put-IsValid depths n d x i b c h depths = (i, b, c)

-- One value goes into one distribution of a valid `Stats`.
abbrev pub AddsWhich : Which → ℕ → (Which → ℕ) → Stats → Distribution → Type 0
AddsWhich w value n x d =
    (Distribution.add (get_which w x) value ≡ added d)
    × (d.total ≡ add64 (get_which w x).total value)
    × IsValid (bump w n) (put_which w d x)

pub add-AddsWhich :
    (w : Which) (value : ℕ) (n : Which → ℕ) (x : Stats)
    → value * 2 < exact
    → n w + 1 < u64_mod
    → IsValid n x
    → (d : Distribution) × AddsWhich w value n x d
add-AddsWhich w value n x small room h =
    let (i, b, c) = h w in
    let (d, run, i', a) = add-Adds (get_which w x) value (rw b small) (omega (arith, c)) i in
    (
      d,
      (
        run,
        a.total_set,
        put-IsValid w n d x i' (a.base_same ∙ b) (omega (arith, a.count_set, c)) h,
      ),
    )
