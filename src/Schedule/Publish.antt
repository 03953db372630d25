-- ===== src/Schedule/Publish.antt =====
-- internal/schedule/buffer.go: the published buffer and the hash of its content, and the last step of
-- ReloadRouteArrays in internal/schedule/loader.go. The content hash is a parameter: SHA-256 is not
-- of this repository.
use multi_agent_travel.Schedule.Buffer.{new_route_buffer, RouteBuffer}
use multi_agent_travel.Prelude.{
  String, ◌≡◌, refl, sym, ◌∙◌, ◌≢◌, ◌⊎◌, inl, inr, Bool, true, false, if◌then◌else◌, Bool-cases,
  ◌==◌, eq_ℕ, eq_String, eq→≡,
}
use multi_agent_travel.Prelude.Int.{eq_ℤ}

-- `manifest.hash`, empty until the first publication, and `liveRoutePtr`.
pub record Published : Type 0 where
  pub hash : String
  pub live : RouteBuffer

-- init.
unfoldable pub initial : Published
unfolding new_route_buffer
initial = record { hash = ""; live = new_route_buffer }

unfoldable pub manifest_changed : String → Published → Published × Bool
manifest_changed hash p = if p.hash == hash then (p, false) else (record p { hash = hash }, true)

unfoldable pub swap_routes : RouteBuffer → Published → Published
swap_routes staging p = record p { live = staging }

unfoldable pub reset_manifest : Published → Published
reset_manifest p = record p { hash = "" }

-- The end of ReloadRouteArrays.
unfoldable pub publish : (RouteBuffer → String) → RouteBuffer → Published → Published
unfolding manifest_changed swap_routes
publish digest staging p =
    let changed = manifest_changed (digest staging) p in
    if changed.1 then swap_routes staging changed.0 else changed.0

-- The hash that is kept is that of the live buffer, or none is kept.
abbrev pub IsHashed : (RouteBuffer → String) → Published → Type 0
IsHashed digest p = (p.hash ≡ "") ⊎ (p.hash ≡ digest p.live)

-- After a reload the live buffer has the content that was loaded, by its hash, whether or not the
-- pointer was swapped, and the hash that is kept is that of the live buffer. The hash that was kept
-- before is that of the buffer that was live then, or empty; no content has the empty hash.
pub publish-IsHashed :
    (digest : RouteBuffer → String) (staging : RouteBuffer) (p : Published)
    → digest staging ≢ ""
    → IsHashed digest p
    → (digest (publish digest staging p).live ≡ digest staging)
      × ((publish digest staging p).hash ≡ digest staging)
unfolding publish manifest_changed swap_routes
publish-IsHashed digest staging p full h = elim (Bool-cases (p.hash == digest staging)) [
  | inr changed ↦ rw changed (refl, refl)
  | inl same ↦ let e = eq→≡ p.hash (digest staging) same in rw same (live_same e h, e)
]
  where
    live_same :
        p.hash ≡ digest staging
        → (p.hash ≡ "") ⊎ (p.hash ≡ digest p.live)
        → digest p.live ≡ digest staging
    live_same e (inl none_kept) = absurd (full (sym e ∙ none_kept))
    live_same e (inr kept) = sym kept ∙ e
