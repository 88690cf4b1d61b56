-- ===== src/Version/Forward.antt =====
-- internal/controller/artifactcontroller/version.go: a release moves forward, stays under the cap,
-- and is never refused from a version that the cap allows.
use forge_ci.Common.{
  String, ℕ, zero, suc, ◌+◌, ◌≤◌, ◌<◌, ◌≡◌, refl, true, false, Option, none, some, ok, ltb, nat_eq,
  arith, ◌⊎◌, inl, inr, Bool-cases, if◌then◌else◌,
}
use native.Mathlib.Decide.{dec_lt}
use forge_ci.Types.{ℤ, pos, negsuc}
use forge_ci.Version.{
  Level, level_patch, Triple, Cap, apply, next_int, fits, within_cap, is_past, bump_loop, bump_from,
  format, parse_cap, eq_int, bump,
}
use forge_ci.Version.Scan.{Semver, max_int, parse_semver}
use forge_ci.Common.Digits.{codes}
use forge_ci.Common.Text.{is_blank}

-- The triple is later than the version, part by part from the major.
abbrev pub IsLater : Semver → ℕ → ℕ → ℕ → Type 0
IsLater v major minor patch =
    (v.major < major)
    ⊎ ((v.major ≡ major) × (v.minor < minor))
    ⊎ ((v.major ≡ major) × (v.minor ≡ minor) × (v.patch < patch))

-- Each part can be raised by one in a 64-bit `int`.
abbrev pub HasRoom : Semver → Type 0
HasRoom v = (v.major < max_int) × (v.minor < max_int) × (v.patch < max_int)

-- The level that a release asks for: a patch at least.
abbrev pub asked : Level → Level
asked level = if ltb level level_patch then level_patch else level

-- A later version, given by its parts, that the cap allows. Its level is the highest that is not
-- above the one asked for and that the cap allows.
pub record IsStep (v : Semver) (limit : Option Cap) (top : Level) (next : Triple) : Type 0 where
  pub major : ℕ
  pub minor : ℕ
  pub patch : ℕ
  pub parts : next ≡ record { major = pos major; minor = pos minor; patch = pos patch }
  pub later : IsLater v major minor patch
  pub allowed : fits next limit ≡ true
  pub level : Level
  pub applied : next ≡ apply v.major v.minor v.patch level
  pub level_le : level ≤ top
  pub highest :
      (l : Level) → level < l → l ≤ top → fits (apply v.major v.minor v.patch l) limit ≡ false

next_int_room : (n : ℕ) → n < max_int → next_int n ≡ pos (n + 1)
unfolding next_int
next_int_room n h = ground arith

suc-eq-zero : (n : ℕ) → nat_eq (suc n) 0 ≡ false
suc-eq-zero n = ground arith

-- The parts that `apply` gives where there is room for them.
abbrev Applied : Semver → Level → Type 0
Applied v level =
    (major minor patch : ℕ) × (apply v.major v.minor v.patch level
      ≡ record { major = pos major; minor = pos minor; patch = pos patch })
    × IsLater v major minor patch

apply_later : (v : Semver) (level : Level) → HasRoom v → Applied v level
unfolding apply
apply_later v level room = elim (Bool-cases (nat_eq level 3)) [
  | inl major ↦
      (v.major + 1, 0, 0, rw (major, next_int_room v.major room.0) refl, inl (omega arith))
  | inr other ↦ elim (Bool-cases (nat_eq level 2)) [
    | inl minor ↦ (
      v.major,
      v.minor + 1,
      0,
      rw (other, minor, next_int_room v.minor room.1) refl,
      inr (inl (refl, omega arith)),
    )
    | inr patch ↦ (
      v.major,
      v.minor,
      v.patch + 1,
      rw (other, patch, next_int_room v.patch room.2) refl,
      inr (inr (refl, refl, omega arith)),
    )
  ]
]

module _ (v : Semver) (limit : Option Cap) (cap_to : String) (room : HasRoom v)
    (base : fits (apply v.major v.minor v.patch level_patch) limit ≡ true) where
  -- A level that fits, with nothing above it asked for.
  here :
      (level : Level)
      → fits (apply v.major v.minor v.patch level) limit ≡ true
      → IsStep v limit level (apply v.major v.minor v.patch level)
  here level fit =
      let (major, minor, patch, parts, later) = apply_later v level room in
      record {
        major = major;
        minor = minor;
        patch = patch;
        parts = parts;
        later = later;
        allowed = fit;
        level = level;
        applied = refl;
        level_le = omega arith;
        highest = λ l h k. absurd (omega arith);
      }

  bump_loop_fits :
      (level : Level)
      → (next : Triple) × (bump_loop v limit cap_to (suc level) ≡ ok next)
        × IsStep v limit (suc level) next
  unfolding bump_loop
  bump_loop_fits zero = (apply v.major v.minor v.patch 1, rw base refl, here 1 base)
  bump_loop_fits (suc level) =
      elim (Bool-cases (fits (apply v.major v.minor v.patch (suc (suc level))) limit)) [
        | inl fit ↦ (
          apply v.major v.minor v.patch (suc (suc level)),
          rw fit refl,
          here (suc (suc level)) fit,
        )
        | inr over ↦
            let (next, e, step) = bump_loop_fits level in
            (
              next,
              rw (over, suc-eq-zero level) e,
              record {
                major = step.major;
                minor = step.minor;
                patch = step.patch;
                parts = step.parts;
                later = step.later;
                allowed = step.allowed;
                level = step.level;
                applied = step.applied;
                level_le = omega (arith, step.level_le);
                highest = λ l h k. above l (step.highest l h) over k;
              },
            )
      ]
    where
      above :
          (l : Level)
          → (l ≤ suc level → fits (apply v.major v.minor v.patch l) limit ≡ false)
          → fits (apply v.major v.minor v.patch (suc (suc level))) limit ≡ false
          → l ≤ suc (suc level)
          → fits (apply v.major v.minor v.patch l) limit ≡ false
      above l below over k = elim (dec_lt l (suc (suc level))) [
        | yes lt ↦ below (omega arith)
        | no ge ↦ let e : l ≡ suc (suc level) = omega arith in rw e over
      ]

gt_int_flip : (a b : ℤ) → eq_int a b ≡ eq_int b a
unfolding eq_int
gt_int_flip (pos a) (pos b) = ground arith
gt_int_flip (pos a) (negsuc b) = refl
gt_int_flip (negsuc a) (pos b) = refl
gt_int_flip (negsuc a) (negsuc b) = ground arith

-- A patch of a version that is not past the cap is not past it either.
patch_fits :
    (v : Semver) (limit : Option Cap)
    → is_past v.major v.minor limit ≡ false
    → fits (apply v.major v.minor v.patch level_patch) limit ≡ true
unfolding is_past fits within_cap apply
patch_fits v none h = refl
patch_fits v (some c) h = ground (arith, gt_int_flip c.major (pos v.major))

asked-suc : (level : Level) → (below : Level) × (asked level ≡ suc below)
asked-suc zero = (0, refl)
asked-suc (suc level) = (level, ground arith)

no_overflow : (n : ℕ) → n < max_int → ltb max_int n ≡ false
no_overflow n h = ground arith

bump_from-loop :
    (v : Semver) (previous cap_to : String) (level : Level) (limit : Option Cap) (next : Triple)
    → v.prerelease ≡ false
    → HasRoom v
    → parse_cap cap_to ≡ ok limit
    → is_past v.major v.minor limit ≡ false
    → bump_loop v limit cap_to (asked level) ≡ ok next
    → bump_from v previous level cap_to ≡ ok (format next)
unfolding bump_from bump_loop format
bump_from-loop v previous cap_to level limit next released room capped past looped =
    rw
      (
        no_overflow v.major room.0,
        no_overflow v.minor room.1,
        no_overflow v.patch room.2,
        released,
        capped,
        past,
        looped,
      )
      refl

-- From a released version that the cap allows and whose parts have room in an `int`, `Bump` always
-- answers. Its answer is a later version, within the cap, and moves by the highest level that is
-- not above the one asked for (a patch at least) and that the cap allows.
pub bump-IsStep :
    (previous cap_to : String) (level : Level) (v : Semver) (limit : Option Cap)
    → is_blank previous ≡ false
    → parse_semver (codes previous) ≡ some v
    → v.prerelease ≡ false
    → HasRoom v
    → parse_cap cap_to ≡ ok limit
    → is_past v.major v.minor limit ≡ false
    → (next : Triple) × (bump previous level cap_to ≡ ok (format next))
      × IsStep v limit (asked level) next
unfolding bump
bump-IsStep previous cap_to level v limit filled parsed released room capped past =
    let (below, top) = asked-suc level in
    let (next, looped, step) = bump_loop_fits v limit cap_to room (patch_fits v limit past) below in
    (
      next,
      rw (filled, parsed)
          (bump_from-loop v previous cap_to level limit next released room capped past
            (rw top looped)),
      rw top step,
    )
