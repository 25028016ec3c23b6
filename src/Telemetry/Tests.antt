-- ===== src/Telemetry/Tests.antt =====
-- The filters and refresh topics of src/mcp_venus_os/telemetry.py for one contract.
use mathlib.Core.List.{Memᴰ}
use mcp_venus_os.Prelude.{
  ℕ, ◌≡◌, ◌↔◌, refl, String, Bool, true, false, [], ◌∷◌, any, elem, str_eq, show_ℤ,
}
use mcp_venus_os.Prelude.Int.{pos}
use mcp_venus_os.Hardware.Tests.{soc_contract}
use mcp_venus_os.Telemetry.{item_topic, subscriptions, required_topics, refresh_topics}
use mcp_venus_os.Telemetry.Filters.{subscriptions_cover}
use mcp_venus_os.Telemetry.Refresh.{IsWanted, refresh_topics_iff}

abbrev limit_topic : String
limit_topic = item_topic "N/p1" "battery" (pos 2) "SocLimit"

subscriptions_cover_example :
    any (λ pattern. str_eq pattern limit_topic) (subscriptions str_eq "N/p1" (soc_contract ∷ []))
    ≡ true
unfolding show_ℤ
subscriptions_cover_example =
    subscriptions_cover str_eq "N/p1" limit_topic soc_contract (soc_contract ∷ []) (Memᴰ.head refl)
      refl refl refl

-- No code point from 128 on is a digit.
abbrev no_digit : ℕ → Bool
no_digit c = false

refresh_topics_iff_example :
    (elem limit_topic (refresh_topics no_digit "N/p1" (limit_topic ∷ []) (soc_contract ∷ []) [])
      ≡ true)
    ↔ ((elem limit_topic (limit_topic ∷ []) ≡ true)
        × IsWanted no_digit "N/p1"
            (required_topics no_digit "N/p1" (soc_contract ∷ []) [])
            limit_topic)
refresh_topics_iff_example =
    refresh_topics_iff no_digit limit_topic "N/p1" (limit_topic ∷ []) (soc_contract ∷ []) []
