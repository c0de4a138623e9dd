-- ===== src/RegionShortcuts.antt =====
-- src/region_shortcuts.cpp: the names of Geode's region shortcuts.
use node_gemfire.Base.{
  ℕ, ◌≡◌, ◌↔◌, refl, ap, ◌∙◌, List, [], ◌∷◌, ◌++◌, Option, none, some, if◌then◌else◌, arith,
}
use node_gemfire.Conversions.Data.{same_key}
use node_gemfire.Conversions.Keys.{same_key-eq}

pub data RegionShortcut : Type 0 where
  proxy caching_proxy caching_proxy_entry_lru local local_entry_lru : RegionShortcut

abbrev proxy_text : List ℕ
proxy_text = b'P' ∷ b'R' ∷ b'O' ∷ b'X' ∷ b'Y' ∷ []

abbrev caching_text : List ℕ
caching_text = b'C' ∷ b'A' ∷ b'C' ∷ b'H' ∷ b'I' ∷ b'N' ∷ b'G' ∷ b'_' ∷ []

abbrev entry_lru_text : List ℕ
entry_lru_text = b'_' ∷ b'E' ∷ b'N' ∷ b'T' ∷ b'R' ∷ b'Y' ∷ b'_' ∷ b'L' ∷ b'R' ∷ b'U' ∷ []

abbrev pub local_text : List ℕ
local_text = b'L' ∷ b'O' ∷ b'C' ∷ b'A' ∷ b'L' ∷ []

-- getRegionShortcut, where nothing is invalidRegionShortcut.
unfoldable pub get_region_shortcut : List ℕ → Option RegionShortcut
get_region_shortcut name =
    if same_key name proxy_text
    then some proxy
    else if same_key name (caching_text ++ proxy_text)
    then some caching_proxy
    else if same_key name (caching_text ++ proxy_text ++ entry_lru_text)
    then some caching_proxy_entry_lru
    else if same_key name local_text
    then some local
    else if same_key name (local_text ++ entry_lru_text)
    then some local_entry_lru
    else none

-- The name of a shortcut in Geode.
abbrev pub shortcut_name : RegionShortcut → List ℕ
shortcut_name proxy = proxy_text
shortcut_name caching_proxy = caching_text ++ proxy_text
shortcut_name caching_proxy_entry_lru = caching_text ++ proxy_text ++ entry_lru_text
shortcut_name local = local_text
shortcut_name local_entry_lru = local_text ++ entry_lru_text

shortcut-known : (k : RegionShortcut) → get_region_shortcut (shortcut_name k) ≡ some k
unfolding get_region_shortcut
shortcut-known proxy = refl
shortcut-known caching_proxy = refl
shortcut-known caching_proxy_entry_lru = refl
shortcut-known local = refl
shortcut-known local_entry_lru = refl

-- A type of a region is a shortcut exactly when it is the shortcut's name.
pub get_region_shortcut_lem :
    (n : List ℕ) (k : RegionShortcut) → (get_region_shortcut n ≡ some k) ↔ (n ≡ shortcut_name k)
unfolding get_region_shortcut
get_region_shortcut_lem n k = (
  λ h. ground (
    arith,
    same_key-eq n proxy_text,
    same_key-eq n (caching_text ++ proxy_text),
    same_key-eq n (caching_text ++ proxy_text ++ entry_lru_text),
    same_key-eq n local_text,
    same_key-eq n (local_text ++ entry_lru_text),
  ),
  λ e. ap get_region_shortcut e ∙ shortcut-known k,
)
