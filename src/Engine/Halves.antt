-- ===== src/Engine/Halves.antt =====
-- crates/cuepool/src/engine.rs: a video and its audio track end in either order.
use cue_pool.Base.{◌≡◌, Bool, true, not, Option, none, some, arith, ◌==◌, filter_by}
use cue_pool.Cue.{Cue}
use cue_pool.Engine.State.{Engine, Show, ActiveCue, CurrentVideo, EngineAction}
use cue_pool.Engine.Stops.{push}
use cue_pool.Engine.Dispatch.{◌>>=◌, finish}
use cue_pool.Engine.Ticks.{
  picture_ends_on_its_own, audio_half_of_pending_video, record_video_half, finish_cue, end_picture,
  video_eof, video_failed,
}

-- The engine with both the audio track and the picture of a video ended.
abbrev pub ended : CurrentVideo → Engine → Engine
ended v e = push (EngineAction.stop_video 0) (record e {
  active_cues = filter_by (λ (c : ActiveCue). not (c.instance_id == v.instance_id)) e.active_cues;
  current_video = none;
  pending_video_half = none;
})

module _ (show : Show) (play : Cue → Engine → Option Engine) where
  -- For a one-shot video with an audio track that does not follow MTC, none of whose halves has ended:
  -- whether the track is found finished and then the picture ends, or the picture ends and then the
  -- track, whose cue may be followed, is found finished, the video finishes once, after both, and what
  -- follows it is played then.
  pub finish_cue-video_eof :
      (v : CurrentVideo) (follow : Bool) (e : Engine)
      → e.current_video ≡ some v
      → e.pending_video_half ≡ none
      → v.has_audio ≡ true
      → picture_ends_on_its_own v ≡ true
      → ((finish_cue show play v.instance_id v.qid follow e
            >>= video_eof show play v.instance_id v.epoch)
          ≡ finish show play v.qid (ended v e))
        × ((video_eof show play v.instance_id v.epoch e
              >>= finish_cue show play v.instance_id v.qid true)
            ≡ finish show play v.qid (ended v e))
  unfolding finish_cue video_eof end_picture audio_half_of_pending_video record_video_half finish
      picture_ends_on_its_own
  finish_cue-video_eof v follow e shown fresh audible once = (ground arith, ground arith)

  -- For a one-shot video with an audio track that does not follow MTC, none of whose halves has ended:
  -- where the track is found finished and the picture then fails, the video is taken off the screen and
  -- nothing else happens. It is not traced as finished, nothing follows it, and its first half stays on
  -- record.
  pub finish_cue-video_failed :
      (v : CurrentVideo) (follow : Bool) (e : Engine)
      → e.current_video ≡ some v
      → e.pending_video_half ≡ none
      → v.has_audio ≡ true
      → picture_ends_on_its_own v ≡ true
      → (finish_cue show play v.instance_id v.qid follow e >>= λ e'.
          some (video_failed show play v.instance_id v.epoch e'))
        ≡ some (record (ended v e) { pending_video_half = some (v.qid, v.instance_id) })
  unfolding finish_cue video_failed audio_half_of_pending_video record_video_half
      picture_ends_on_its_own
  finish_cue-video_failed v follow e shown fresh audible once = ground arith
