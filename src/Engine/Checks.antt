-- ===== src/Engine/Checks.antt =====
-- The rule of `Keeps` for the checks and the events of `ShowEngine` (crates/cuepool/src/engine.rs).
use cue_pool.Base.{
  ℕ, ◌≡◌, refl, Bool, true, false, not, ◌&&◌, Option, none, some, List, [], ◌∷◌, map, inl, inr,
  arith, if◌then◌else◌, ◌==◌, Option-cases, filter_by, leb, ltb,
}
use cue_pool.Cue.{Cue, LoopMode, qid}
use cue_pool.Engine.State.{
  Engine, Show, Audio, ActiveCue, DelayedCue, EngineAction, EngineTrace, EngineEvent, CurrentVideo,
}
use cue_pool.Engine.Stops.{push, push_trace}
use cue_pool.Engine.Transport.{show_elapsed}
use cue_pool.Engine.Play.{is_none, push_video_action}
use cue_pool.Engine.Dispatch.{play_after_last, finish, play_cue}
use cue_pool.Engine.Ticks.{
  audio_half_of_pending_video, record_video_half, finish_cue, finish_cues, check_finished_cues,
  check_delayed_cues, trigger_timecodes, follow_all, expire_timecodes, check_timecodes, end_picture,
  video_eof, video_failed, video_at, is_due, check_video_loops, update_loops, is_finished,
}
use cue_pool.Engine.Run.{run_event, run_checks, check_levels}
use cue_pool.Engine.Keeps.{Closed, Keeps, >>=-Keeps, if-keep, push-keeps, push_video_action-keeps}
use cue_pool.Engine.Preserve.{after-Keeps, finish-Keeps, all-Keeps, trace-keeps, play_cue-Keeps}

module _ {P : Engine → Type 0} (k : Closed P) where
  record_video_half-keeps : (q i : ℕ) (e : Engine) → P e → P (record_video_half q i e).0
  unfolding record_video_half
  record_video_half-keeps q i e h =
      if-keep (λ (r : Engine × Bool). P r.0) _ _ _ (λ _. k.halves none e h)
        (λ _. k.halves (some (q, i)) e h)

  module _ (show : Show) (audio : Audio) (play : Cue → Engine → Option Engine)
      (plays : (c : Cue) (e : Engine) → P e → Keeps P (play c e)) where
    finish_cue-Keeps :
        (i q : ℕ) (f : Bool) (e : Engine) → P e → Keeps P (finish_cue show play i q f e)
    unfolding finish_cue
    finish_cue-Keeps i q f e h =
        let removed : Engine = record e {
          active_cues = filter_by (λ (c : ActiveCue). not (c.instance_id == i)) e.active_cues;
        } in
        let half = audio_half_of_pending_video q i removed in
        let halves = record_video_half q i removed in
        let ended = if half then halves.0 else removed in
        let h1 : P removed = k.cues _ e h in
        let h2 : P ended =
          if-keep P half _ _ (λ _. record_video_half-keeps q i removed h1) (λ _. h1) in
        let h3 = push-keeps k (EngineAction.trace (EngineTrace.cue_finished q)) ended h2 in
        if-keep (Keeps P) (half && not halves.1) (some ended) _ (λ _. h2)
          λ _.
            if-keep (Keeps P) f _ (some (push_trace (EngineTrace.cue_finished q) ended))
              (λ _.
                after-Keeps k show audio play plays q
                  (push_trace (EngineTrace.cue_finished q) ended) h3)
              (λ _. h3)

    finish_cues-Keeps :
        (l : List (ℕ × ℕ × Bool)) (e : Engine) → P e → Keeps P (finish_cues show play l e)
    unfolding finish_cues
    finish_cues-Keeps [] e h = h
    finish_cues-Keeps ((i, q, f) ∷ rest) e h =
        >>=-Keeps P (finish_cue show play i q f e) (finish_cues show play rest)
          (finish_cue-Keeps i q f e h) (finish_cues-Keeps rest)

    check_finished_cues-Keeps : (e : Engine) → P e → Keeps P (check_finished_cues show play e)
    unfolding check_finished_cues
    check_finished_cues-Keeps e h =
        finish_cues-Keeps
          (map (λ (c : ActiveCue). (c.instance_id, c.qid, c.follow_after_last))
            (filter_by is_finished e.active_cues))
          e h

    check_delayed_cues-Keeps : (e : Engine) → P e → Keeps P (check_delayed_cues show play e)
    unfolding check_delayed_cues
    check_delayed_cues-Keeps e h =
        all-Keeps k show audio play plays
          (map (λ (d : DelayedCue). d.cue)
            (filter_by (λ (d : DelayedCue). leb d.start_at e.now) e.delayed_cues))
          (record e {
            delayed_cues =
                filter_by (λ (d : DelayedCue). not (leb d.start_at e.now)) e.delayed_cues;
          })
          (k.delays _ e h)

    trigger_timecodes-Keeps :
        (cs : List Cue) (e : Engine) → P e → Keeps P (trigger_timecodes show play cs e)
    unfolding trigger_timecodes
    trigger_timecodes-Keeps [] e h = h
    trigger_timecodes-Keeps (c ∷ cs) e h =
        >>=-Keeps P (play c (record e { triggered_timecodes = qid c ∷ e.triggered_timecodes }))
          (trigger_timecodes show play cs) (plays c _ (k.triggered _ e h))
          (trigger_timecodes-Keeps cs)

    follow_all-Keeps : (qs : List ℕ) (e : Engine) → P e → Keeps P (follow_all show play qs e)
    unfolding follow_all
    follow_all-Keeps [] e h = h
    follow_all-Keeps (q ∷ qs) e h =
        >>=-Keeps P (play_after_last show play q e) (follow_all show play qs)
          (after-Keeps k show audio play plays q e h) (follow_all-Keeps qs)

    expire_timecodes-Keeps :
        (elapsed : ℕ) (e : Engine) → P e → Keeps P (expire_timecodes show play elapsed e)
    unfolding expire_timecodes
    expire_timecodes-Keeps elapsed e h =
        follow_all-Keeps
          (map (λ (t : ℕ × ℕ). t.0) (filter_by (λ (t : ℕ × ℕ). leb t.1 elapsed) e.active_timecodes))
          (record e {
            active_timecodes = filter_by (λ (t : ℕ × ℕ). ltb elapsed t.1) e.active_timecodes;
          })
          (k.windows _ e h)

    check_timecodes-Keeps : (e : Engine) → P e → Keeps P (check_timecodes show play e)
    unfolding check_timecodes
    check_timecodes-Keeps e h = elim (Option-cases (show_elapsed e)) [
      | inl off ↦ rw (off, check_timecodes) h
      | inr (elapsed, on) ↦
          rw (on, check_timecodes)
            (>>=-Keeps P
              (trigger_timecodes show play
                (filter_by (is_due elapsed e.triggered_timecodes) show.cues) e)
              (expire_timecodes show play elapsed)
              (trigger_timecodes-Keeps (filter_by (is_due elapsed e.triggered_timecodes) show.cues)
                e h)
              (expire_timecodes-Keeps elapsed))
    ]

    end_picture-Keeps : (v : CurrentVideo) (e : Engine) → P e → Keeps P (end_picture show play v e)
    unfolding end_picture
    end_picture-Keeps v e h =
        let cleared = push (EngineAction.stop_video 0) (record e { current_video = none }) in
        let h1 = push-keeps k (EngineAction.stop_video 0) _ (k.no_video e h) in
        let halves : Engine × Bool =
          if v.has_audio then record_video_half v.qid v.instance_id cleared else (cleared, true) in
        let h2 : P halves.0 =
          if-keep (λ (r : Engine × Bool). P r.0) v.has_audio
            (record_video_half v.qid v.instance_id cleared) (cleared, true)
            (λ _. record_video_half-keeps v.qid v.instance_id cleared h1) (λ _. h1) in
        if-keep (Keeps P) halves.1 (finish show play v.qid halves.0) (some halves.0)
          (λ _. finish-Keeps k show audio play plays v.qid halves.0 h2) (λ _. h2)

    again-Keeps :
        (v : CurrentVideo) (e : Engine)
        → is_none e.current_video ≡ false
        → P e
        → Keeps P (if v.has_audio then some e else some (push_video_action v e))
    again-Keeps v e shown h =
        if-keep (Keeps P) v.has_audio (some e) (some (push_video_action v e)) (λ _. h)
          (λ _. push_video_action-keeps k v e (inl shown) h)

    shown_at :
        (i ep : ℕ) (o : Option CurrentVideo) (v : CurrentVideo)
        → video_at show play i ep o ≡ some v
        → is_none o ≡ false
    shown_at i ep none v h = absurd (ground arith)
    shown_at i ep (some w) v h = refl

    ended-Keeps :
        (i ep : ℕ) (v : CurrentVideo) (m : LoopMode) (e : Engine)
        → video_at show play i ep e.current_video ≡ some v
        → P e
        → Keeps P (elim m [
          | LoopMode.looped ↦ (if v.has_audio then some e else some (push_video_action v e))
          | LoopMode.looped_infinite ↦
              (if v.has_audio then some e else some (push_video_action v e))
          | LoopMode.hold_last ↦ some e
          | LoopMode.one_shot ↦ end_picture show play v e
        ])
    ended-Keeps i ep v LoopMode.looped e at h =
        again-Keeps v e (shown_at i ep e.current_video v at) h
    ended-Keeps i ep v LoopMode.looped_infinite e at h =
        again-Keeps v e (shown_at i ep e.current_video v at) h
    ended-Keeps i ep v LoopMode.hold_last e at h = h
    ended-Keeps i ep v LoopMode.one_shot e at h = end_picture-Keeps v e h

    video_eof-Keeps : (i ep : ℕ) (e : Engine) → P e → Keeps P (video_eof show play i ep e)
    unfolding video_eof
    video_eof-Keeps i ep e h = elim (Option-cases (video_at show play i ep e.current_video)) [
      | inl other ↦ rw (other, video_eof) h
      | inr (v, at) ↦
          rw (at, video_eof)
            (if-keep (Keeps P) v.follow_mtc (some e) _ (λ _. h)
              (λ _. ended-Keeps i ep v v.loop_mode e at h))
    ]

    video_failed-keeps : (i ep : ℕ) (e : Engine) → P e → P (video_failed show play i ep e)
    unfolding video_failed
    video_failed-keeps i ep e h = elim (Option-cases (video_at show play i ep e.current_video)) [
      | inl other ↦ rw (other, video_failed) h
      | inr (v, at) ↦
          let cleared = push-keeps k (EngineAction.stop_video 0) _ (k.no_video e h) in
          rw (at, video_failed)
            (if-keep P v.has_audio _ _ (λ _. cleared)
              (λ _. trace-keeps k show audio play plays (EngineTrace.cue_finished v.qid) _ cleared))
    ]

  check_video_loops-keeps : (e : Engine) → P e → P (check_video_loops e)
  unfolding check_video_loops
  check_video_loops-keeps e h = elim (Option-cases e.current_video) [
    | inl off ↦ rw (off, check_video_loops) h
    | inr (v, on) ↦
        let updated = update_loops v.qid e.active_cues in
        let counted : Engine = record e { active_cues = updated.0 } in
        let h1 : P counted = k.cues updated.0 e h in
        rw (on, check_video_loops)
          (if-keep P v.follow_mtc e _ (λ _. h)
            λ _.
              if-keep P updated.1 (push_video_action v counted) counted
                (λ _. push_video_action-keeps k v counted (inl (rw on refl)) h1) (λ _. h1))
  ]

  module _ (show : Show) (audio : Audio) (fuel : ℕ) where
    plays : (c : Cue) (e : Engine) → P e → Keeps P (play_cue show audio fuel c e)
    plays = play_cue-Keeps k show audio fuel

    pub run_event-Keeps :
        (v : EngineEvent) (e : Engine) → P e → Keeps P (run_event show audio fuel v e)
    unfolding run_event
    run_event-Keeps (EngineEvent.video_eof i ep) e h =
        video_eof-Keeps show audio (play_cue show audio fuel) plays i ep e h
    run_event-Keeps (EngineEvent.video_failed i ep) e h =
        video_failed-keeps show audio (play_cue show audio fuel) plays i ep e h
    run_event-Keeps (EngineEvent.external_finished q) e h =
        finish-Keeps k show audio (play_cue show audio fuel) plays q e h

    pub run_checks-Keeps : (e : Engine) → P e → Keeps P (run_checks show audio fuel e)
    unfolding run_checks check_levels
    run_checks-Keeps e h =
        >>=-Keeps P
          (check_finished_cues show (play_cue show audio fuel) (check_levels show audio fuel e)) _
          (check_finished_cues-Keeps show audio (play_cue show audio fuel) plays
            (check_levels show audio fuel e) (k.cues _ e h))
          λ e' h'.
            >>=-Keeps P (check_delayed_cues show (play_cue show audio fuel) (check_video_loops e'))
              _
              (check_delayed_cues-Keeps show audio (play_cue show audio fuel) plays
                (check_video_loops e') (check_video_loops-keeps e' h'))
              (check_timecodes-Keeps show audio (play_cue show audio fuel) plays)
