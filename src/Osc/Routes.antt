-- ===== src/Osc/Routes.antt =====
-- What `OscRouter` (crates/cuepool-protocols/src/osc/mod.rs) fires.
use cue_pool.Base.{
  ◌≡◌, refl, sym, ap, subst, ◌∙◌, Bool, true, false, ◌&&◌, ◌||◌, List, [], ◌∷◌, ◌++◌, if◌then◌else◌,
  Bool-cases, append_assoc, append-nil, inl, inr, if_true, if_false,
}
use cue_pool.Base.Text.{Text, text_eq, text_eq→eq, text_eq_self}
use cue_pool.Osc.Router.{
  RouterNode, Children, Wildcard, node, child, no_child, wildcard, no_wildcard, question_mark,
  Fired, new_node, change_child, change_wildcard, subscribe, is_filled, at_child, at_wildcard,
  route_node, parts, subscribe_all,
}

-- A pattern matches an address of as many parts, each of which it names or leaves open.
abbrev pub matches : List Text → List Text → Bool
matches [] [] = true
matches [] (a ∷ as') = false
matches (p ∷ ps) [] = false
matches (p ∷ ps) (a ∷ as') = (text_eq p question_mark || text_eq p a) && matches ps as'

or_true : (b : Bool) → (b || true) ≡ true
or_true true = refl
or_true false = refl

module _ {H : Type 0} where
  -- `ys` is `xs` with `h` put in somewhere.
  abbrev pub PutIn : H → List H → List H → Type 0
  PutIn h xs ys =
      (before : List H) × (after : List H) × (xs ≡ before ++ after) × (ys ≡ before ++ h ∷ after)

  PutIn-left : (h : H) (xs ys zs : List H) → PutIn h xs ys → PutIn h (zs ++ xs) (zs ++ ys)
  PutIn-left h xs ys zs (b, a, e, f) = (
    zs ++ b,
    a,
    ap (λ l. zs ++ l) e ∙ sym (append_assoc zs b a),
    ap (λ l. zs ++ l) f ∙ sym (append_assoc zs b (h ∷ a)),
  )

  PutIn-right : (h : H) (xs ys zs : List H) → PutIn h xs ys → PutIn h (xs ++ zs) (ys ++ zs)
  PutIn-right h xs ys zs (b, a, e, f) = (
    b,
    a ++ zs,
    ap (λ l. l ++ zs) e ∙ append_assoc b a zs,
    ap (λ l. l ++ zs) f ∙ append_assoc b (h ∷ a) zs,
  )

  PutIn-end : (h : H) (xs : List H) → PutIn h xs (xs ++ h ∷ [])
  PutIn-end h xs = (xs, [], sym (append-nil xs), refl)

  -- What a subscription adds to what fires: the handler where the pattern matches, and nothing else.
  abbrev Adds : Bool → H → Fired H → Fired H → Type 0
  Adds true h old new = PutIn h old.0 new.0 × (new.1 ≡ true)
  Adds false h old new = (new.0 ≡ old.0) × (new.1 ≡ old.1)

  nothing_fires : (as' : List Text) → route_node {H = H} as' new_node ≡ ([], false)
  unfolding route_node
  nothing_fires [] = refl
  nothing_fires (a ∷ as') = refl

  is_filled-end : (hs : List H) (h : H) → is_filled (hs ++ h ∷ []) ≡ true
  is_filled-end [] h = refl
  is_filled-end (x ∷ hs) h = refl

  abbrev both : Fired H → Fired H → Fired H
  both exact wild = (exact.0 ++ wild.0, exact.1 || wild.1)

  Adds-exact :
      (b : Bool) (h : H) (old new wild : Fired H)
      → Adds b h old new
      → Adds b h (both old wild) (both new wild)
  Adds-exact true h old new wild (e, f) = (PutIn-right h old.0 new.0 wild.0 e, rw f)
  Adds-exact false h old new wild (e, f) = (ap (λ l. l ++ wild.0) e, ap (λ b. b || wild.1) f)

  Adds-wild :
      (b : Bool) (h : H) (old new exact : Fired H)
      → Adds b h old new
      → Adds b h (both exact old) (both exact new)
  Adds-wild true h old new exact (e, f) =
      (PutIn-left h old.0 new.0 exact.0 e, rw f (or_true exact.1))
  Adds-wild false h old new exact (e, f) = (ap (λ l. exact.0 ++ l) e, ap (λ b. exact.1 || b) f)

  Adds-none : (h : H) (f : Fired H) → Adds false h f f
  Adds-none h f = (refl, refl)

  module _ (b : Bool) (h : H) (r : RouterNode H → Fired H) (f : RouterNode H → RouterNode H)
      (new : r new_node ≡ ([], false)) (adds : (n : RouterNode H) → Adds b h (r n) (r (f n))) where
    Adds-new : Adds b h ([], false) (r (f new_node))
    Adds-new = subst (λ o. Adds b h o (r (f new_node))) new (adds new_node)

    change_wildcard-Adds :
        (w : Wildcard H) → Adds b h (at_wildcard r w) (at_wildcard r (change_wildcard f w))
    change_wildcard-Adds no_wildcard = Adds-new
    change_wildcard-Adds (wildcard n) = adds n

    change_child-Adds :
        (name : Text) (cs : Children H)
        → Adds b h (at_child r name cs) (at_child r name (change_child f name cs))
    change_child-Adds name no_child =
        subst (Adds b h ([], false)) (sym (if_true (text_eq name name) _ _ (text_eq_self name)))
          Adds-new
    change_child-Adds name (child k n cs) = elim (Bool-cases (text_eq k name)) [
      | inl same ↦ rw same (rw same (adds n))
      | inr other ↦ rw other (rw other (change_child-Adds name cs))
    ]

  change_child_other :
      (r : RouterNode H → Fired H) (f : RouterNode H → RouterNode H) (name part : Text)
      (cs : Children H)
      → text_eq name part ≡ false
      → at_child r part (change_child f name cs) ≡ at_child r part cs
  change_child_other r f name part no_child e = if_false (text_eq name part) _ _ e
  change_child_other r f name part (child k n cs) e = elim (Bool-cases (text_eq k name)) [
    | inl same ↦
        let unlike : text_eq k part ≡ false =
          ap (λ k. text_eq k part) (text_eq→eq k name same) ∙ e in
        rw same (rw unlike refl)
    | inr other ↦
        rw other
          (ap (λ l. if text_eq k part then r n else l) (change_child_other r f name part cs e))
  ]

  -- The same handlers, as often, in any order.
  abbrev pub Shuffled : List H → List H → Type 0
  Shuffled [] ys = ys ≡ []
  Shuffled (h ∷ xs) ys = (rest : List H) × Shuffled xs rest × PutIn h rest ys

  added :
      (b : Bool) (h : H) (xs : List H) (old new : Fired H)
      → Shuffled xs old.0
      → old.1 ≡ is_filled xs
      → Adds b h old new
      → Shuffled (if b then h ∷ xs else xs) new.0 × (new.1 ≡ is_filled (if b then h ∷ xs else xs))
  added true h xs old new s e (put, fires) = ((old.0, s, put), fires)
  added false h xs old new s e (same, fires) = (subst (Shuffled xs) (sym same) s, fires ∙ e)

  -- What one more subscription adds to what fires, at every address.
  subscribe-Adds :
      (ps as' : List Text) (h : H) (n : RouterNode H)
      → Adds (matches ps as') h (route_node as' n) (route_node as' (subscribe ps h n))
  unfolding subscribe route_node
  subscribe-Adds [] [] h (node hs cs w) = (PutIn-end h hs, is_filled-end hs h)
  subscribe-Adds [] (a ∷ as') h (node hs cs w) = (refl, refl)
  subscribe-Adds (p ∷ ps) [] h (node hs cs w) = elim (Bool-cases (text_eq p question_mark)) [
    | inl open_part ↦ rw open_part (refl, refl)
    | inr named ↦ rw named (refl, refl)
  ]
  subscribe-Adds (p ∷ ps) (a ∷ as') h (node hs cs w) =
      let r : RouterNode H → Fired H = λ n. route_node as' n in
      let f : RouterNode H → RouterNode H = λ n. subscribe ps h n in
      let adds : (n : RouterNode H) → Adds (matches ps as') h (r n) (r (f n)) =
        λ n. subscribe-Adds ps as' h n in
      elim (Bool-cases (text_eq p question_mark)) [
        | inl open_part ↦ rw open_part (
            Adds-wild (matches ps as') h (at_wildcard r w) (at_wildcard r (change_wildcard f w))
              (at_child r a cs)
              (change_wildcard-Adds (matches ps as') h r f (nothing_fires as') adds w))
        | inr named ↦ elim (Bool-cases (text_eq p a)) [
          | inl same ↦
              rw (named, same)
                (Adds-exact (matches ps as') h (at_child r a cs)
                  (at_child r a (change_child f p cs)) (at_wildcard r w)
                  (subst
                    (λ name.
                      Adds (matches ps as') h (at_child r a cs)
                        (at_child r a (change_child f name cs)))
                    (sym (text_eq→eq p a same))
                    (change_child-Adds (matches ps as') h r f (nothing_fires as') adds a cs)))
          | inr other ↦
              rw (named, other)
                (Adds-exact false h (at_child r a cs) (at_child r a (change_child f p cs))
                  (at_wildcard r w)
                  (
                    ap (λ fired. fired.0) (change_child_other r f p a cs other),
                    ap (λ fired. fired.1) (change_child_other r f p a cs other),
                  ))
        ]
      ]

  -- The handlers of the subscriptions that match, the last one first, and before them those in `found`.
  abbrev pub matching : List Text → List (Text × H) → List H → List H
  matching address [] found = found
  matching address ((pattern', h) ∷ subs) found =
      matching address subs (if matches (parts pattern') address then h ∷ found else found)

  subscribe_all-Shuffled :
      (address : List Text) (subs : List (Text × H)) (found : List H) (n : RouterNode H)
      → Shuffled found (route_node address n).0
      → (route_node address n).1 ≡ is_filled found
      → Shuffled (matching address subs found) (route_node address (subscribe_all subs n)).0
        × ((route_node address (subscribe_all subs n)).1 ≡ is_filled (matching address subs found))
  unfolding subscribe_all
  subscribe_all-Shuffled address [] found n shuffled fired = (shuffled, fired)
  subscribe_all-Shuffled address ((pattern', h) ∷ subs) found n shuffled fired =
      let pattern' = parts pattern' in
      let (shuffled', fired') =
        added (matches pattern' address) h found (route_node address n)
          (route_node address (subscribe pattern' h n)) shuffled fired
          (subscribe-Adds pattern' address h n) in
      subscribe_all-Shuffled address subs (if matches pattern' address then h ∷ found else found)
        (subscribe pattern' h n) shuffled' fired'

  -- An address fires the handlers of the subscriptions whose pattern matches the whole of it, each as
  -- often as it is subscribed, and no others; and the router says that it has fired exactly when there
  -- is such a subscription.
  pub route_node-Shuffled :
      (address : List Text) (subs : List (Text × H))
      → Shuffled (matching address subs []) (route_node address (subscribe_all subs new_node)).0
        × ((route_node address (subscribe_all subs new_node)).1
            ≡ is_filled (matching address subs []))
  route_node-Shuffled address subs =
      subscribe_all-Shuffled address subs [] new_node (ap (λ f. f.0) (nothing_fires address))
        (ap (λ f. f.1) (nothing_fires address))
