-- ===== src/Tests/OfOsc.antt =====
-- Concrete runs of the OSC messages of crates/cuepool-protocols/src/osc/mod.rs.
use cue_pool.Base.{ℕ, ◌≡◌, refl, true, false, none, some, List, [], ◌∷◌, All}
use cue_pool.Base.Int.{pos, negsuc}
use cue_pool.Base.Text.{Text, codes}
use cue_pool.Osc.Router.{
  new_node, parts, parts_from, route_node, subscribe, subscribe_all, is_filled,
}
use cue_pool.Osc.Routes.{Shuffled, matching, route_node-Shuffled}
use cue_pool.Osc.Args.{OscType, OscMessage, arg_to_string, arg_to_f32, arg_to_dmx, is_press}
use cue_pool.Osc.Events.{OscEvent, manager, receive, subscriptions, is_first_sighting}
use cue_pool.Osc.Targeted.{Segment, verbs, address_of, receive-verbs}

abbrev message : Text → List OscType → OscMessage
message addr args = record { addr = addr; args = args }

abbrev stray_address : Text
stray_address = codes "/qplayer/goo"

-- A bare GO, a fader, a button that is let go, and an address that nothing takes, heard twice.
go_bare :
    receive manager [] (message (codes "/qplayer/go") []) 9 ≡ ([], OscEvent.go none ∷ [], false)
unfolding receive manager subscribe subscribe_all route_node parts_from subscriptions
go_bare = refl

go_named :
    receive manager [] (message (codes "/qplayer/go") (OscType.float (pos 1_500) ∷ [])) 9
    ≡ ([], OscEvent.go (some (codes "1.5")) ∷ [], false)
unfolding receive manager subscribe subscribe_all route_node parts_from subscriptions arg_to_string
go_named = refl

fader :
    receive manager [] (message (codes "/dmx/1/512") (OscType.float (pos 500) ∷ [])) 9
    ≡ ([], OscEvent.dmx_channel 1 512 128 ∷ [], false)
unfolding receive manager subscribe subscribe_all route_node parts_from subscriptions arg_to_dmx
fader = refl

beyond :
    receive manager [] (message (codes "/dmx/1/513") (OscType.int (pos 7) ∷ [])) 9 ≡ ([], [], false)
unfolding receive manager subscribe subscribe_all route_node parts_from subscriptions arg_to_dmx
beyond = refl

released :
    receive manager [] (message (codes "/recorder/record") (OscType.float (pos 0) ∷ [])) 9
    ≡ ([], [], false)
unfolding receive manager subscribe subscribe_all route_node parts_from subscriptions arg_to_f32
    is_press
released = refl

-- A number that is neither zero nor positive is no press.
negative_press : is_press (message [] (OscType.int (negsuc 0) ∷ [])) ≡ false
unfolding is_press arg_to_f32
negative_press = refl

unmatched : receive manager [] (message stray_address []) 9 ≡ (stray_address ∷ [], [], true)
unfolding receive manager subscribe subscribe_all route_node parts_from subscriptions
    is_first_sighting
unmatched = refl

unmatched_again :
    receive manager (stray_address ∷ []) (message stray_address []) 9
    ≡ (stray_address ∷ [], [], false)
unfolding receive manager subscribe subscribe_all route_node parts_from subscriptions
    is_first_sighting
unmatched_again = refl

-- Three subscriptions, of which two match.
abbrev three : List (Text × ℕ)
three = (codes "/a/?", 1) ∷ (codes "/a", 2) ∷ (codes "/a/b", 3) ∷ []

route_node-Shuffled_example :
    Shuffled
      (matching (parts (codes "/a/b")) three [])
      (route_node (parts (codes "/a/b")) (subscribe_all three new_node)).0
    × ((route_node (parts (codes "/a/b")) (subscribe_all three new_node)).1
        ≡ is_filled (matching (parts (codes "/a/b")) three []))
route_node-Shuffled_example = route_node-Shuffled (parts (codes "/a/b")) three

cue_name : Segment (codes "1.1")
cue_name = record { filled = λ e. cc; whole = (refl, (refl, (refl, tt))) }

receive-verbs_example :
    All
      (λ (v : Text × (Text → List OscType → OscEvent)).
        receive manager []
          (message (address_of v.0 (codes "1.1")) (OscType.float (pos 2_500) ∷ []))
          9
        ≡ ([], v.1 (codes "1.1") (OscType.float (pos 2_500) ∷ []) ∷ [], false))
      verbs
receive-verbs_example = receive-verbs [] (codes "1.1") (OscType.float (pos 2_500) ∷ []) 9 cue_name
