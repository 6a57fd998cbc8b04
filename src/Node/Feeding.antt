-- ===== src/Node/Feeding.antt =====
-- internal/nrd, internal/blocklist/parser and internal/dnsengine together: from the feed's body to the
-- queries that are refused.
use phantomcore.Base.{ℕ, ◌≡◌, refl, ap, ◌∙◌, true, false, some, List, arith, Text, inl, inr}
use phantomcore.Blocklist.Engine.{Fetched}
use phantomcore.Nrd.Checker.{Checker, block_mode, refresh}
use phantomcore.Nrd.Refresh.{Loads, IsCovered, refresh_listed_iff, refresh-Loads}
use phantomcore.Dns.State.{Engine, Wiring, Call}
use phantomcore.Dns.Process.{is_blocklisted, handle}
use phantomcore.Dns.Effects.{count, is_ask}
use phantomcore.Dns.Clearance.{nrd_blocks}
use phantomcore.Dns.Denials.{handle_denied}
use phantomcore.Node.Startup.{Parts, attach}

refresh-block_mode :
    (fetch : Text → Text → Fetched) (c : Checker) (ds : List Text)
    → Loads fetch c ds
    → block_mode (some (refresh fetch c).1) ≡ c.cfg.block
unfolding block_mode
refresh-block_mode fetch c ds l = ap (λ x. x.cfg.block) (refresh-Loads fetch c ds l)

-- The parts after the feed was refreshed.
abbrev pub with_refresh : Parts → (Text → Text → Fetched) → Parts
with_refresh parts fetch = record parts { checker = (refresh fetch parts.checker).1 }

pub attach-is_blocklisted :
    (base : Wiring) (parts : Parts) (now : ℕ) (domain : Text)
    → is_blocklisted (attach base parts now) domain ≡ is_blocklisted base domain
unfolding attach is_blocklisted
attach-is_blocklisted base parts now domain = refl

-- From the feed to the client: after a refresh that loads a feed in block mode, a query whose name
-- the feed covers, by itself or by a parent, and that the blocklist does not have, is not sent
-- upstream whatever the policies and the detector say, and leaves the engine's state as it was.
pub refresh-handle :
    (base : Wiring) (parts : Parts) (fetch : Text → Text → Fetched) (ds : List Text) (e : Engine)
    (c : Call)
    → Loads fetch parts.checker ds
    → parts.checker.cfg.block ≡ true
    → IsCovered c.domain ds
    → is_blocklisted base c.domain ≡ false
    → (count is_ask (handle (attach base (with_refresh parts fetch) c.now) e c).1 ≡ 0)
      × ((handle (attach base (with_refresh parts fetch) c.now) e c).0 ≡ e)
unfolding attach
refresh-handle base parts fetch ds e c l mode covered clear =
    let p = with_refresh parts fetch in
    let listed = (refresh_listed_iff fetch parts.checker ds c.domain l).1 covered in
    let blocks = refresh-block_mode fetch parts.checker ds l ∙ mode in
    let hit : nrd_blocks (attach base p c.now).nrd c.domain ≡ true =
      ground (arith, listed, blocks) in
    handle_denied (attach base p c.now) e c
      (inr (inl (attach-is_blocklisted base p c.now c.domain ∙ clear, hit)))
