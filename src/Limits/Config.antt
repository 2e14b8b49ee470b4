-- ===== src/Limits/Config.antt =====
-- `Limits` and `configured_limits`.
use azd_santa.Base.{ℕ, ◌*◌, ◌≤◌, String, Bool, not, ◌&&◌, ◌≡◌, Option, none, some, arith}
use azd_santa.Base.{leb, length, ◌=?◌, if◌then◌else◌}
use azd_santa.Base.Text.{codes, all, is_digit, decimal}
use azd_santa.Json.Hooks.{◌>>=◌}

pub record Limits : Type 0 where
  pub compressed : ℕ
  pub expanded : ℕ
  pub depth : ℕ
  pub events : ℕ

abbrev pub defaults : Limits
defaults = record { compressed = 1024 * 1024; expanded = 4 * 1024 * 1024; depth = 32; events = 100 }

abbrev pub ceilings : Limits
ceilings = record {
  compressed = 4 * 1024 * 1024;
  expanded = 16 * 1024 * 1024;
  depth = 64;
  events = 1000;
}

-- `raw.isascii() and raw.isdecimal()`
unfoldable pub is_decimal : String → Bool
is_decimal raw = not (length (codes raw) =? 0) && all is_digit (codes raw)

-- One setting: the variable's value, or the default if it is not set. `none` is a `ValueError`.
unfoldable pub setting : Option String → ℕ → ℕ → Option ℕ
setting none default ceiling = if leb 1 default && leb default ceiling then some default else none
setting (some raw) default ceiling =
    if is_decimal raw && leb 1 (decimal raw) && leb (decimal raw) ceiling
    then some (decimal raw)
    else none

-- `environ` is a function from the names of variables.
unfoldable pub configured_limits : (String → Option String) → Option Limits
configured_limits environ =
    setting (environ "AZD_SANTA_MAX_COMPRESSED") defaults.compressed ceilings.compressed
    >>= λ compressed.
        setting (environ "AZD_SANTA_MAX_EXPANDED") defaults.expanded ceilings.expanded
        >>= λ expanded.
            setting (environ "AZD_SANTA_MAX_DEPTH") defaults.depth ceilings.depth >>= λ depth.
            setting (environ "AZD_SANTA_MAX_EVENTS") defaults.events ceilings.events >>= λ events.
            some (record {
              compressed = compressed;
              expanded = expanded;
              depth = depth;
              events = events;
            })

abbrev pub Within : ℕ → ℕ → Type 0
Within n ceiling = (1 ≤ n) × (n ≤ ceiling)

setting-Within :
    (raw : Option String) (default ceiling n : ℕ)
    → setting raw default ceiling ≡ some n
    → Within n ceiling
unfolding setting
setting-Within none default ceiling n h = ground arith
setting-Within (some raw) default ceiling n h = ground arith

-- Whatever the environment is, limits that are accepted are at least 1 and at most the ceilings.
pub configured_limits_bounds :
    (environ : String → Option String) (l : Limits)
    → configured_limits environ ≡ some l
    → Within l.compressed ceilings.compressed
      × Within l.expanded ceilings.expanded
      × Within l.depth ceilings.depth
      × Within l.events ceilings.events
unfolding configured_limits
configured_limits_bounds environ l h = ground (
  arith,
  setting-Within (environ "AZD_SANTA_MAX_COMPRESSED") defaults.compressed ceilings.compressed
      l.compressed,
  setting-Within (environ "AZD_SANTA_MAX_EXPANDED") defaults.expanded ceilings.expanded l.expanded,
  setting-Within (environ "AZD_SANTA_MAX_DEPTH") defaults.depth ceilings.depth l.depth,
  setting-Within (environ "AZD_SANTA_MAX_EVENTS") defaults.events ceilings.events l.events,
)
