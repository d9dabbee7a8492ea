-- ===== src/Owncast/Tests.antt =====
-- The listener, the pool, the rendering and the probe on concrete runs.
use livelier.Base.{true, false, ◌≡◌, refl, none, some, List, [], ◌∷◌, leb, ◌⊎◌}
use livelier.Base.Text.{codes, begins, includes}
use livelier.Owncast.Pool.{ChatterToken}
use livelier.Owncast.Pool.Laws.{new_pool, run, registers, destroys, sends, Call, run-Capped, Capped}
use livelier.Owncast.Liveness.{
  Text, live, check_owncast_hls_liveness, classify_media_playlist, check_body, has_endlist,
  has_offline_slate, has_media_sequence,
}
use livelier.Owncast.Liveness.Laws.{ServesLive, ServesMaster, check_owncast_hls_liveness-live}
use livelier.Owncast.Html.{Token, url, mention, other}
use livelier.Owncast.Listener.{
  Listener, new_listener, start, on_registered, on_open, on_close, Reach, here, next, starts,
  registers, opens, closes, max_consecutive_failures,
}
use livelier.Owncast.Listener.Laws.{Delay, Reach-Bounded}

-- A dial, a connection that opens and drops at once.
abbrev dropped : Listener
dropped = on_close (on_open (on_registered (some "me") (start new_listener)))

dial : Reach new_listener dropped
unfolding start new_listener on_registered
dial = next (next (next (next here starts) (registers (some "me"))) (opens refl)) closes

Reach-Bounded_example :
    Delay dropped.reconnect_timer
    × (leb max_consecutive_failures dropped.failures ≡ true → dropped.dormant ≡ true)
    × (dropped.stopped ≡ true
        → (dropped.socket ≡ false)
          × (dropped.healthy_timer ≡ false)
          × (dropped.reconnect_timer ≡ none))
Reach-Bounded_example = Reach-Bounded dropped dial

-- A sender is registered, its instance's senders are destroyed, and it writes again.
abbrev token : ChatterToken
token = record { access_token = "t1"; user_id = "u1" }

abbrev calls : List Call
calls =
    registers "https://o.example" "alice" token
    ∷ destroys "https://o.example"
    ∷ sends "https://o.example" "alice" "hi"
    ∷ []

run-Capped_example : Capped (run calls new_pool)
run-Capped_example = run-Capped calls

-- A text with a tag in it, a link and a mention that has no address.
abbrev tokens : List Token
tokens =
    other (codes "<script>\n")
    ∷ url (codes "my \"site\"") (some (codes "https://a.example/\"onx"))
    ∷ mention (codes "@bob") (some (codes "xyz"))
    ∷ []

-- A server with one live media playlist.
abbrev playlist : Text
playlist = codes "#EXT-X-MEDIA-SEQUENCE:7"

is_live : check_owncast_hls_liveness (λ _. some playlist) (λ _ _. none) (codes "u") ≡ live
unfolding check_owncast_hls_liveness check_body classify_media_playlist has_endlist
    has_offline_slate has_media_sequence codes begins includes
is_live = refl

check_owncast_hls_liveness-live_example :
    ServesLive (λ _. some playlist) (λ _ _. none) (codes "u")
    ⊎ ServesMaster (λ _. some playlist) (λ _ _. none) (codes "u")
check_owncast_hls_liveness-live_example =
    check_owncast_hls_liveness-live (λ _. some playlist) (λ _ _. none) (codes "u") is_live
