-- ===== src/Osc/Targeted.antt =====
-- Addresses that name a cue (crates/cuepool-protocols/src/osc/mod.rs).
use cue_pool.Base.{
  ℕ, ◌≡◌, ◌≢◌, refl, sym, ap, ◌∙◌, true, false, Option, none, some, List, [], ◌∷◌, ◌++◌, ◌==◌,
  append_assoc, append-nil, if_false, All,
}
use cue_pool.Base.Text.{Text, codes}
use cue_pool.Osc.Router.{parts, parts_from, flush, route_node, subscribe, subscribe_all}
use cue_pool.Osc.Args.{OscType, last_of, addr_qid, first, arg_to_f32, ◌>>=◌}
use cue_pool.Osc.Events.{
  OscEvent, Handler, sent, with_path, preload_path, select_path, manager, receive, subscriptions,
}

-- A name that fits between two slashes.
pub record Segment (q : Text) : Type 0 where
  pub filled : q ≢ []
  pub whole : All (λ (c : ℕ). (c == 0x2F) ≡ false) q

flush_filled : (q : Text) → q ≢ [] → flush q ≡ q ∷ []
flush_filled [] h = absurd (h refl)
flush_filled (c ∷ cs) h = refl

parts_from-segment :
    (part q : Text) → All (λ (c : ℕ). (c == 0x2F) ≡ false) q → parts_from part q ≡ flush (part ++ q)
unfolding parts_from
parts_from-segment part [] h = ap flush (sym (append-nil part))
parts_from-segment part (c ∷ cs) h =
    if_false (c == 0x2F) _ _ h.0
    ∙ parts_from-segment (part ++ c ∷ []) cs h.1
    ∙ ap flush (append_assoc part (c ∷ []) cs)

-- The commands that take the number of a cue as the last part of their address, with the event for
-- that number and the arguments.
abbrev pub verbs : List (Text × (Text → List OscType → OscEvent))
verbs =
    (codes "go", λ q args. OscEvent.go (some q))
    ∷ (codes "stop", λ q args. OscEvent.stop (some q))
    ∷ (codes "pause", λ q args. OscEvent.pause (some q))
    ∷ (codes "unpause", λ q args. OscEvent.unpause (some q))
    ∷ (codes "preload", λ q args. OscEvent.preload (some q) (first args >>= arg_to_f32))
    ∷ (codes "select", λ q args. OscEvent.select q)
    ∷ []

abbrev pub address_of : Text → Text → Text
address_of verb q = codes "/qplayer/" ++ verb ++ codes "/" ++ q

-- The route of an address, where it is known, decides what a message becomes.
receive_fired :
    (seen : List Text) (addr : Text) (args : List OscType) (src : ℕ) (hs : List Handler)
    → route_node (parts addr) manager ≡ (hs, true)
    → receive manager seen (record { addr = addr; args = args }) src
      ≡ (seen, sent hs (record { addr = addr; args = args }) src, false)
unfolding receive
receive_fired seen addr args src hs e = rw e refl

module _ (q : Text) (s : Segment q) where
  parts-end :
      (before : List Text) (addr : Text)
      → parts addr ≡ before ++ parts q
      → parts addr ≡ before ++ q ∷ []
  parts-end before addr e =
      e
      ∙ ap (λ ps. before ++ ps)
          (parts_from-segment [] q (Segment.whole s) ∙ flush_filled q (Segment.filled s))

  -- One handler, which sends an event for the last part.
  receive_last :
      (seen : List Text) (addr : Text) (args : List OscType) (src : ℕ) (verb : Text) (h : Handler)
      (event : OscEvent)
      → parts addr ≡ codes "qplayer" ∷ verb ∷ parts q
      → route_node (codes "qplayer" ∷ verb ∷ q ∷ []) manager ≡ (h ∷ [], true)
      → (addr_qid addr ≡ some q → h (record { addr = addr; args = args }) src ≡ some event)
      → receive manager seen (record { addr = addr; args = args }) src ≡ (seen, event ∷ [], false)
  receive_last seen addr args src verb h event e routed sends =
      let whole = parts-end (codes "qplayer" ∷ verb ∷ []) addr e in
      receive_fired seen addr args src (h ∷ []) (ap (λ ps. route_node ps manager) whole ∙ routed)
      ∙ ap (λ (o : Option OscEvent). (seen, elim o [ none ↦ [] | some e ↦ e ∷ [] ], false))
          (sends (ap last_of whole))

-- An address of a command that can end with the number of a cue (GO, stop, pause, unpause, preload,
-- select), whichever number it ends with, is that command for that cue and nothing else, whatever
-- else it carries: not the command for the selected cue, which the beginning of the address names,
-- and not an unmatched address.
pub receive-verbs :
    (seen : List Text) (q : Text) (args : List OscType) (src : ℕ)
    → Segment q
    → All
        (λ (v : Text × (Text → List OscType → OscEvent)).
          receive manager seen (record { addr = address_of v.0 q; args = args }) src
          ≡ (seen, v.1 q args ∷ [], false))
        verbs
unfolding manager subscribe subscribe_all route_node parts_from subscriptions
receive-verbs seen q args src s =
    let one = receive_last q s seen in
    (
      one (address_of (codes "go") q) args src (codes "go") (with_path OscEvent.go) _ refl refl
          (λ e. ap (λ o. some (OscEvent.go o)) e),
      (
        one (address_of (codes "stop") q) args src (codes "stop") (with_path OscEvent.stop) _ refl
            refl (λ e. ap (λ o. some (OscEvent.stop o)) e),
        (
          one (address_of (codes "pause") q) args src (codes "pause") (with_path OscEvent.pause) _
              refl refl (λ e. ap (λ o. some (OscEvent.pause o)) e),
          (
            one (address_of (codes "unpause") q) args src (codes "unpause")
                (with_path OscEvent.unpause) _ refl refl
                (λ e. ap (λ o. some (OscEvent.unpause o)) e),
            (
              one (address_of (codes "preload") q) args src (codes "preload") preload_path _ refl
                  refl (λ e. ap (λ o. some (OscEvent.preload o (first args >>= arg_to_f32))) e),
              (
                one (address_of (codes "select") q) args src (codes "select") select_path _ refl
                    refl (λ e. ap (λ o. o >>= λ q. some (OscEvent.select q)) e),
                tt,
              ),
            ),
          ),
        ),
      ),
    )
