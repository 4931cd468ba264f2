-- ===== src/Osc/Events.antt =====
-- `OscEvent` and the subscriptions of `OscManager::new`, with the report of addresses that match none
-- (crates/cuepool-protocols/src/osc/mod.rs).
use cue_pool.Base.{
  ℕ, Bool, true, false, ◌||◌, ◌&&◌, not, Option, none, some, List, [], ◌∷◌, ltb, if◌then◌else◌,
  length,
}
use cue_pool.Base.Int.{ℤ}
use cue_pool.Base.Text.{Text, codes, text_eq}
use cue_pool.Osc.Router.{RouterNode, parts, new_node, route_node, subscribe_all}
use cue_pool.Osc.Args.{
  OscType, OscMessage, int, arg_to_string, arg_to_f32, arg_to_i32, arg_to_dmx, is_press,
  optional_index, addr_qid, parse_dmx_addr, first, to_usize, ◌>>=◌,
}

pub data OscEvent : Type 0 where
  go stop pause unpause : Option Text → OscEvent
  preload : Option Text → Option ℤ → OscEvent
  select : Text → OscEvent
  save : OscEvent
  volume : ℤ → Option (ℕ × ℤ) → OscEvent
  volume_query : ℕ → ℤ → OscEvent
  remote_discovery : Text → Option ℕ → OscEvent
  remote_go remote_pause remote_unpause remote_stop : Text → Text → OscEvent
  remote_preload : Text → Text → ℤ → OscEvent
  remote_ping : ℕ → OscEvent
  remote_update_show_ack remote_update_show_nack : Text → ℤ → OscEvent
  dmx_channel : ℕ → ℕ → ℕ → OscEvent
  recorder_record recorder_stop recorder_play recorder_discard recorder_revert : OscEvent
  recorder_select : Text → OscEvent
  autoblend_stream : Text → OscEvent
  autoblend_markers autoblend_colors autoblend_white : Option ℕ → OscEvent
  autoblend_apply autoblend_abort : OscEvent
  autoblend_run : Text → Option ℕ → OscEvent

-- What a handler sends for a message and the address that it came from.
abbrev pub Handler : Type 0
Handler = OscMessage → ℕ → Option OscEvent

abbrev pub arg : OscMessage → Option OscType
arg msg = first msg.args

abbrev pub second : List OscType → Option OscType
second [] = none
second (a ∷ as') = first as'

abbrev pub third : List OscType → Option OscType
third [] = none
third (a ∷ as') = second as'

abbrev pub with_qid : (Option Text → OscEvent) → Handler
with_qid event msg src = some (event (arg msg >>= arg_to_string))

abbrev pub with_path : (Option Text → OscEvent) → Handler
with_path event msg src = some (event (addr_qid msg.addr))

abbrev pub with_text : (Text → OscEvent) → Handler
with_text event msg src = arg msg >>= arg_to_string >>= λ s. some (event s)

abbrev pub always : OscEvent → Handler
always event msg src = some event

abbrev pub with_index : (Option ℕ → OscEvent) → Handler
with_index event msg src = some (event (optional_index msg))

abbrev pub on_press : OscEvent → Handler
on_press event msg src = if is_press msg then some event else none

-- A target and a cue number.
abbrev pub with_target : (Text → Text → OscEvent) → Handler
with_target event msg src =
    arg msg >>= arg_to_string >>= λ t. second msg.args >>= arg_to_string >>= λ q. some (event t q)

abbrev pub with_block : (Text → ℤ → OscEvent) → Handler
with_block event msg src = arg msg >>= arg_to_string >>= λ name.
    second msg.args >>= arg_to_i32 >>= λ b. some (event name b)

abbrev pub preload_arg : Handler
preload_arg msg src =
    some (OscEvent.preload (arg msg >>= arg_to_string) (second msg.args >>= arg_to_f32))

abbrev pub preload_path : Handler
preload_path msg src = some (OscEvent.preload (addr_qid msg.addr) (arg msg >>= arg_to_f32))

abbrev pub select_path : Handler
select_path msg src = addr_qid msg.addr >>= λ q. some (OscEvent.select q)

-- A level, perhaps with the number of a request to answer.
abbrev pub volume_args : List OscType → ℕ → Option (OscType × Option (ℕ × ℤ))
volume_args (level ∷ []) src = some (level, none)
volume_args (level ∷ int request ∷ []) src = some (level, some (src, request))
volume_args args src = none

abbrev pub volume_handler : Handler
volume_handler msg src =
    volume_args msg.args src >>= λ v. arg_to_f32 v.0 >>= λ db. some (OscEvent.volume db v.1)

abbrev pub query_args : List OscType → ℕ → Option OscEvent
query_args (int request ∷ []) src = some (OscEvent.volume_query src request)
query_args args src = none

abbrev pub query_volume : Handler
query_volume msg src = query_args msg.args src

abbrev pub preload_target : Handler
preload_target msg src = arg msg >>= arg_to_string >>= λ t.
    second msg.args >>= arg_to_string >>= λ q.
    third msg.args >>= arg_to_f32 >>= λ time. some (OscEvent.remote_preload t q time)

abbrev pub ping : Handler
ping msg src = some (OscEvent.remote_ping src)

abbrev pub dmx : Handler
dmx msg src = parse_dmx_addr msg.addr >>= λ a.
    arg msg >>= arg_to_dmx >>= λ v. some (OscEvent.dmx_channel a.0 a.1 v)

abbrev pub run_autoblend : Handler
run_autoblend msg src = arg msg >>= arg_to_string >>= λ url.
    some (OscEvent.autoblend_run url (second msg.args >>= arg_to_i32 >>= to_usize))

-- In the order in which they are subscribed.
unfoldable pub subscriptions : List (Text × Handler)
unfolding arg_to_string arg_to_f32 arg_to_i32 arg_to_dmx is_press
subscriptions =
    (codes "/qplayer/go", with_qid OscEvent.go)
    ∷ (codes "/qplayer/stop", with_qid OscEvent.stop)
    ∷ (codes "/qplayer/pause", with_qid OscEvent.pause)
    ∷ (codes "/qplayer/unpause", with_qid OscEvent.unpause)
    ∷ (codes "/qplayer/preload", preload_arg)
    ∷ (codes "/qplayer/select", with_text OscEvent.select)
    ∷ (codes "/qplayer/save", always OscEvent.save)
    ∷ (codes "/qplayer/volume", volume_handler)
    ∷ (codes "/qplayer/volume/get", query_volume)
    ∷ (codes "/qplayer/go/?", with_path OscEvent.go)
    ∷ (codes "/qplayer/stop/?", with_path OscEvent.stop)
    ∷ (codes "/qplayer/pause/?", with_path OscEvent.pause)
    ∷ (codes "/qplayer/unpause/?", with_path OscEvent.unpause)
    ∷ (codes "/qplayer/preload/?", preload_path)
    ∷ (codes "/qplayer/select/?", select_path)
    ∷ (codes "/qplayer/remote/discovery", with_text (λ name. OscEvent.remote_discovery name none))
    ∷ (codes "/qplayer/remote/go", with_target OscEvent.remote_go)
    ∷ (codes "/qplayer/remote/pause", with_target OscEvent.remote_pause)
    ∷ (codes "/qplayer/remote/unpause", with_target OscEvent.remote_unpause)
    ∷ (codes "/qplayer/remote/stop", with_target OscEvent.remote_stop)
    ∷ (codes "/qplayer/remote/preload", preload_target)
    ∷ (codes "/qplayer/remote/ping", ping)
    ∷ (codes "/qplayer/remote/update-show-ack", with_block OscEvent.remote_update_show_ack)
    ∷ (codes "/qplayer/remote/update-show-nack", with_block OscEvent.remote_update_show_nack)
    ∷ (codes "/dmx/?/?", dmx)
    ∷ (codes "/recorder/record", on_press OscEvent.recorder_record)
    ∷ (codes "/recorder/stop", on_press OscEvent.recorder_stop)
    ∷ (codes "/recorder/play", on_press OscEvent.recorder_play)
    ∷ (codes "/recorder/discard", on_press OscEvent.recorder_discard)
    ∷ (codes "/recorder/revert", on_press OscEvent.recorder_revert)
    ∷ (codes "/recorder/select", with_text OscEvent.recorder_select)
    ∷ (codes "/qplayer/projection/autoblend/stream", with_text OscEvent.autoblend_stream)
    ∷ (codes "/qplayer/projection/autoblend/markers", with_index OscEvent.autoblend_markers)
    ∷ (codes "/qplayer/projection/autoblend/colors", with_index OscEvent.autoblend_colors)
    ∷ (codes "/qplayer/projection/autoblend/apply", always OscEvent.autoblend_apply)
    ∷ (codes "/qplayer/projection/autoblend/abort", always OscEvent.autoblend_abort)
    ∷ (codes "/qplayer/projection/autoblend/white", with_index OscEvent.autoblend_white)
    ∷ (codes "/qplayer/projection/autoblend/run", run_autoblend)
    ∷ []

unfoldable pub manager : RouterNode Handler
unfolding subscribe_all subscriptions
manager = subscribe_all subscriptions new_node

-- What the fired handlers send, one after the other.
abbrev pub sent : List Handler → OscMessage → ℕ → List OscEvent
sent [] msg src = []
sent (h ∷ hs) msg src = elim (h msg src) [ none ↦ sent hs msg src | some e ↦ e ∷ sent hs msg src ]

abbrev pub unmatched_addr_limit : ℕ
unmatched_addr_limit = 32

abbrev pub is_in : Text → List Text → Bool
is_in a [] = false
is_in a (b ∷ bs) = text_eq a b || is_in a bs

-- Whether an unmatched address is worth a line, with the addresses seen so far.
unfoldable pub is_first_sighting : List Text → Text → List Text × Bool
is_first_sighting seen addr =
    if ltb (length seen) unmatched_addr_limit && not (is_in addr seen)
    then (addr ∷ seen, true)
    else (seen, false)

-- One message: the events, and whether its address is reported as unmatched.
unfoldable pub receive :
    RouterNode Handler → List Text → OscMessage → ℕ → List Text × List OscEvent × Bool
unfolding is_first_sighting
receive router seen msg src =
    let fired = route_node (parts msg.addr) router in
    let sighted = is_first_sighting seen msg.addr in
    if fired.1
    then (seen, sent fired.0 msg src, false)
    else (sighted.0, sent fired.0 msg src, sighted.1)
