-- ===== src/FsTier/Space.antt =====
-- patches/tiering-fs-manager.disk-reserve.py: the cached free space, and whether a store may use it.
use deepseek_v4_flash_mi300x.Prelude.{
  ℕ, ◌+◌, Bool, true, false, not, ◌&&◌, ltb, leb, ◌==◌, if◌then◌else◌,
}
use deepseek_v4_flash_mi300x.FsTier.{Tier, Env}

-- `_get_available_bytes`
unfoldable pub get_available_bytes : Env → Bool → Tier → Tier × ℕ
get_available_bytes e force t =
    if not force
      && (not (t.last_space_check == 0) && ltb e.now (t.last_space_check + t.space_check_interval))
    then (t, t.available_bytes)
    else (record t { available_bytes = e.free_bytes; last_space_check = e.now }, e.free_bytes)

-- `_has_store_space`
unfoldable pub has_store_space : Env → ℕ → Tier → Tier × Bool
has_store_space e required t =
    let (t', available) = get_available_bytes e false t in
    let enough = leb (t.min_free_bytes + t.reserved_store_bytes + required) available in
    if t.min_free_bytes == 0 then (t, true) else (record t' { space_available = enough }, enough)
