-- ===== src/Osc/Router.antt =====
-- `OscRouter` of crates/cuepool-protocols/src/osc/mod.rs: the trie from address patterns to handlers. The
-- children of a node, a hash map, are a list with one entry for each name.
use cue_pool.Base.{Bool, true, false, ◌||◌, List, [], ◌∷◌, ◌++◌, ◌==◌, if◌then◌else◌}
use cue_pool.Base.Text.{Text, text_eq}

mutual
  pub data RouterNode (H : Type 0) : Type 0 where
    node : List H → Children H → Wildcard H → RouterNode H

  pub data Children (H : Type 0) : Type 0 where
    no_child : Children H
    child : Text → RouterNode H → Children H → Children H

  pub data Wildcard (H : Type 0) : Type 0 where
    no_wildcard : Wildcard H
    wildcard : RouterNode H → Wildcard H

-- `?`
abbrev pub question_mark : Text
question_mark = 0x3F ∷ []

-- `addr.split('/').filter(|s| !s.is_empty())`, behind the part that has been read.
abbrev pub flush : Text → List Text
flush [] = []
flush (c ∷ cs) = (c ∷ cs) ∷ []

unfoldable pub parts_from : Text → Text → List Text
parts_from part [] = flush part
parts_from part (c ∷ cs) =
    let next = parts_from [] cs in
    let longer = parts_from (part ++ c ∷ []) cs in if c == 0x2F then flush part ++ next else longer

abbrev pub parts : Text → List Text
parts addr = parts_from [] addr

-- What fires, in order, and whether anything does.
abbrev pub Fired : Type 0 → Type 0
Fired H = List H × Bool

module _ {H : Type 0} where
  abbrev pub new_node : RouterNode H
  new_node = node [] no_child no_wildcard

  -- The change of the child of a name, which is made where it is missing.
  abbrev pub change_child : (RouterNode H → RouterNode H) → Text → Children H → Children H
  change_child f name no_child = child name (f new_node) no_child
  change_child f name (child k n cs) =
      if text_eq k name then child k (f n) cs else child k n (change_child f name cs)

  abbrev pub change_wildcard : (RouterNode H → RouterNode H) → Wildcard H → Wildcard H
  change_wildcard f no_wildcard = wildcard (f new_node)
  change_wildcard f (wildcard n) = wildcard (f n)

  unfoldable pub subscribe : List Text → H → RouterNode H → RouterNode H
  subscribe [] h (node hs cs w) = node (hs ++ h ∷ []) cs w
  subscribe (part ∷ ps) h (node hs cs w) =
      if text_eq part question_mark
      then node hs cs (change_wildcard (subscribe ps h) w)
      else node hs (change_child (subscribe ps h) part cs) w

  abbrev pub is_filled : List H → Bool
  is_filled [] = false
  is_filled (h ∷ hs) = true

  abbrev pub at_child : (RouterNode H → Fired H) → Text → Children H → Fired H
  at_child f name no_child = ([], false)
  at_child f name (child k n cs) = if text_eq k name then f n else at_child f name cs

  abbrev pub at_wildcard : (RouterNode H → Fired H) → Wildcard H → Fired H
  at_wildcard f no_wildcard = ([], false)
  at_wildcard f (wildcard n) = f n

  unfoldable pub route_node : List Text → RouterNode H → Fired H
  route_node [] (node hs cs w) = (hs, is_filled hs)
  route_node (part ∷ ps) (node hs cs w) =
      let exact = at_child (route_node ps) part cs in
      let wild = at_wildcard (route_node ps) w in (exact.0 ++ wild.0, exact.1 || wild.1)

-- Subscriptions one after the other.
unfoldable pub subscribe_all : {H : Type 0} → List (Text × H) → RouterNode H → RouterNode H
subscribe_all [] n = n
subscribe_all ((pattern', h) ∷ subs) n = subscribe_all subs (subscribe (parts pattern') h n)
