-- ===== src/Engine/Total.antt =====
-- crates/cuepool/src/engine.rs: `play_cue` calls itself for a group's members and for the cue that
-- follows. On a show whose numbers are distinct and whose members stand behind their headers these
-- calls go down the list, and the fuel is enough.
use cue_pool.Base.{
  ℕ, zero, suc, ◌≤◌, ◌<◌, ◌≡◌, ◌≢◌, refl, Bool, true, false, not, ◌&&◌, ◌||◌, Option, none, some,
  List, [], ◌∷◌, map, inl, inr, arith, if◌then◌else◌, ltb, In, In-filter_by, Distinct, All,
  Option-cases,
}
use cue_pool.Cue.{Cue, CueBase, base, qid, enabled, parent, StopFields}
use cue_pool.Sequence.{next_after_last, is_member_of}
use cue_pool.Sequence.Rank.{rank, next_after_last-rank}
use cue_pool.Sequence.Clock.{delayed_cue_starts_show_clock-some}
use cue_pool.Sequence.Goto.{resolve_goto_target-Answers}
use cue_pool.Sequence.Targets.{resolve_stop_targets-Within}
use cue_pool.Engine.State.{Engine, Show, Audio}
use cue_pool.Engine.Stops.{stop_target}
use cue_pool.Engine.Play.{cue_is_active, start_clock}
use cue_pool.Engine.Dispatch.{
  ◌>>=◌, play_all, group_members, play_after_last, finish, play_stop, play_goto, play_time_code,
  play_external, play_kind, play_here, play_routed, arms, play_step, play_cue, route,
}

-- The layout that the cue list's commands keep: no number twice, and every cue with a parent behind
-- the cue of that number.
pub record LaidOut (show : Show) : Type 0 where
  pub distinct : Distinct (map qid show.cues)
  pub members :
      (c : Cue) (g : ℕ)
      → In c show.cues
      → parent c ≡ some g
      → rank show.cues (qid c) < rank show.cues g

abbrev pub Ends : Option Engine → Type 0
Ends o = o ≢ none

pub >>=-Ends :
    {A B : Type 0} (o : Option A) (f : A → Option B)
    → o ≢ none
    → ((a : A) → f a ≢ none)
    → (o >>= f) ≢ none
>>=-Ends none f h k = absurd (h refl)
>>=-Ends (some a) f h k = k a

pub some-Ends : {A : Type 0} (a : A) → some a ≢ none
some-Ends e h = cc

pub if-Ends : (b : Bool) (x y : Option Engine) → Ends x → Ends y → Ends (if b then x else y)
if-Ends true x y h k = h
if-Ends false x y h k = k

module _ (show : Show) (audio : Audio) (laid : LaidOut show) (play : Cue → Engine → Option Engine)
    (bound : ℕ)
    (below : (c : Cue) (e : Engine) → rank show.cues (qid c) < bound → Ends (play c e)) where
  play_after_last-Ends :
      (q : ℕ) (e : Engine) → rank show.cues q ≤ bound → Ends (play_after_last show play q e)
  unfolding play_after_last
  play_after_last-Ends q e h = elim (Option-cases (next_after_last show.cues q)) [
    | inl none_left ↦ rw (none_left, play_after_last) (some-Ends e)
    | inr (c, found) ↦
        rw (found, play_after_last)
          (below c e (omega (arith, next_after_last-rank show.cues q c laid.distinct found)))
  ]

  finish-Ends : (q : ℕ) (e : Engine) → rank show.cues q ≤ bound → Ends (finish show play q e)
  unfolding finish
  finish-Ends q e h = play_after_last-Ends q _ h

  play_all-Ends :
      (cs : List Cue) (e : Engine)
      → All (λ c. rank show.cues (qid c) < bound) cs
      → Ends (play_all play cs e)
  unfolding play_all
  play_all-Ends [] e h = some-Ends e
  play_all-Ends (c ∷ cs) e h = >>=-Ends (play c e) _ (below c e h.0) (λ e'. play_all-Ends cs e' h.1)

  members-All :
      (q : ℕ) (cs : List Cue)
      → rank show.cues q ≤ bound
      → ((c : Cue) → In c cs → In c show.cues × (is_member_of q c ≡ true))
      → All (λ c. rank show.cues (qid c) < bound) cs
  members-All q [] h k = tt
  members-All q (c ∷ cs) h k = (
    omega (arith, laid.members c q (k c (inl refl)).0 (ground (arith, (k c (inl refl)).1))),
    members-All q cs h (λ d m. k d (inr m)),
  )

  group-Ends :
      (q : ℕ) (e : Engine)
      → rank show.cues q ≤ bound
      → Ends (play_all play (group_members show q) e)
  unfolding group_members
  group-Ends q e h = play_all-Ends (group_members show q) e (
      members-All q (group_members show q) h
        λ c m. let (inside, kept) = In-filter_by _ c show.cues m in (inside, ground arith))

  play_stop-Ends :
      (b : CueBase) (f : StopFields) (e : Engine)
      → rank show.cues b.qid ≤ bound
      → Ends (play_stop show audio play b f e)
  unfolding play_stop stop_target
  play_stop-Ends b f e h =
      let (ts, found, _) = resolve_stop_targets-Within show.cues f.stop_qid in
      >>=-Ends _ _ (if-Ends f.stop_all _ _ (some-Ends _) (rw (found, stop_target) (some-Ends _)))
        (λ e'. finish-Ends b.qid e' h)

  play_goto-Ends :
      (b : CueBase) (target : ℕ) (e : Engine) → Ends (play_goto show audio play b target e)
  unfolding play_goto
  play_goto-Ends b target e =
      let (r, found, _) = resolve_goto_target-Answers show.cues b.qid target in
      rw (found, play_goto) (ground arith)

  play_external-Ends :
      (c : Cue) (lasts : Bool) (e : Engine)
      → rank show.cues (qid c) ≤ bound
      → Ends (play_external show audio play c lasts e)
  unfolding play_external
  play_external-Ends c lasts e h = if-Ends lasts _ _ (some-Ends _) (finish-Ends (qid c) _ h)

  play_kind-Ends :
      (c : Cue) (e : Engine) → rank show.cues (qid c) ≤ bound → Ends (play_kind show audio play c e)
  unfolding play_kind play_time_code
  play_kind-Ends (Cue.group b) e h = group-Ends b.qid e h
  play_kind-Ends (Cue.sound b m) e h = some-Ends _
  play_kind-Ends (Cue.video b m f s) e h = some-Ends _
  play_kind-Ends (Cue.stop b f) e h = play_stop-Ends b f e h
  play_kind-Ends (Cue.volume b f) e h = finish-Ends b.qid _ h
  play_kind-Ends (Cue.time_code b s d) e h =
      if-Ends (ltb 0 d) _ _ (some-Ends _) (play_after_last-Ends b.qid e h)
  play_kind-Ends (Cue.goto b t) e h = play_goto-Ends b t e
  play_kind-Ends (Cue.image b p) e h = play_external-Ends (Cue.image b p) false _ h
  play_kind-Ends (Cue.dmx_show b p) e h = play_external-Ends (Cue.dmx_show b p) true e h
  play_kind-Ends (Cue.dummy b) e h = play_external-Ends (Cue.dummy b) false e h
  play_kind-Ends (Cue.network b t) e h = play_external-Ends (Cue.network b t) false e h
  play_kind-Ends (Cue.text b t) e h = play_external-Ends (Cue.text b t) false e h
  play_kind-Ends (Cue.pixel_map b t) e h = play_external-Ends (Cue.pixel_map b t) false e h
  play_kind-Ends (Cue.lighting b t) e h = play_external-Ends (Cue.lighting b t) false e h

  play_here-Ends :
      (c : Cue) (e : Engine) → rank show.cues (qid c) ≤ bound → Ends (play_here show audio play c e)
  unfolding play_here
  play_here-Ends c e h = ground (arith, play_kind-Ends c e h)

  play_routed-Ends :
      (c : Cue) (e : Engine)
      → rank show.cues (qid c) ≤ bound
      → Ends (play_routed show audio play c e)
  unfolding play_routed
  play_routed-Ends c e h =
      if-Ends (route show.settings c e).1 _ _ (some-Ends _)
        (play_here-Ends c (route show.settings c e).0 h)

  arms-Ends : (c : Cue) (e : Engine) → arms show audio play c e ≢ none
  unfolding arms
  arms-Ends c e = let (b, found) = delayed_cue_starts_show_clock-some show.cues c in ground arith

  play_step-Ends :
      (c : Cue) (e : Engine) → rank show.cues (qid c) ≤ bound → Ends (play_step show audio play c e)
  unfolding play_step
  play_step-Ends c e h =
      if-Ends (not (enabled c) || (not (base c).retriggerable && cue_is_active (qid c) e)) (some e)
        (arms show audio play c e >>= λ armed.
          play_routed show audio play c (if armed then start_clock e else e))
        (some-Ends e)
        (>>=-Ends (arms show audio play c e) _ (arms-Ends c e) (λ armed. play_routed-Ends c _ h))

module _ (show : Show) (audio : Audio) (laid : LaidOut show) where
  -- With more fuel than cues stand from the first one of its number on, a cue plays to the end.
  pub play_cue-Ends :
      (fuel : ℕ) (c : Cue) (e : Engine)
      → rank show.cues (qid c) < fuel
      → Ends (play_cue show audio fuel c e)
  unfolding play_cue
  play_cue-Ends zero c e h = absurd (omega arith)
  play_cue-Ends (suc fuel) c e h =
      play_step-Ends show audio laid (play_cue show audio fuel) fuel
        (λ d e' k. play_cue-Ends fuel d e' k) c e (omega arith)
