-- ===== src/Connection/Frame/Epochs.antt =====
-- connection.go: an epoch that was read before a later subscription lets no detach erase it.
use realtime_go.Common.{
  ℕ, ◌+◌, ◌≤◌, ◌<◌, ◌≡◌, refl, sym, ap, ◌∙◌, inl, inr, Bool, true, false, ◌&&◌, ◌||◌, not, Option,
  none, some, List, [], ◌∷◌, Bytes, arith, ◌==◌, ltb, if◌then◌else◌, Bool-cases,
}
use realtime_go.Common.Maps.{find, member, insert, find-delete_other, member-discard_other}
use realtime_go.Common.Strings.{eq_bytes, eq_bytes_iff, eq_bytes_refl}
use realtime_go.Connection.{Connection}
use realtime_go.Connection.Subscriptions.{
  or_zero, add_name, subscription_epoch, remember_subscription, forget_subscription,
}
use realtime_go.Connection.Events.{Event, react, react_all, forget_event}
use realtime_go.Connection.Frame.Kept.{Kept}
use realtime_go.Connection.Frame.Remembered.{
  Update, untouched, remembering, forgetting, react-Update,
}

find-insert :
    (k j : Bytes) (n : ℕ) (m : List (Bytes × ℕ))
    → find eq_bytes k (insert eq_bytes j n m) ≡ (if eq_bytes k j then some n else find eq_bytes k m)
unfolding find
find-insert k j n m = elim (Bool-cases (eq_bytes k j)) [
  | inl e ↦ rw e refl
  | inr e ↦ rw e (find-delete_other eq_bytes eq_bytes_iff k j m e)
]

-- The epoch after another subscription to a channel.
pub epoch-remember_subscription :
    (name other : Bytes) (c : Connection)
    → subscription_epoch name (remember_subscription other c)
      ≡ (if eq_bytes name other then subscription_epoch name c + 1 else subscription_epoch name c)
unfolding subscription_epoch remember_subscription
epoch-remember_subscription name other c =
    rw (find-insert name other (or_zero (find eq_bytes other c.sub_epochs) + 1) c.sub_epochs)
      (elim (Bool-cases (eq_bytes name other)) [
        | inl e ↦ rw e (
            ap (λ k. or_zero (find eq_bytes k c.sub_epochs) + 1)
              (sym ((eq_bytes_iff name other).0 e)))
        | inr e ↦ rw e refl
      ])

epoch-forget_subscription :
    (name other : Bytes) (epoch : Option ℕ) (c : Connection)
    → subscription_epoch name (forget_subscription other epoch c) ≡ subscription_epoch name c
unfolding subscription_epoch forget_subscription
epoch-forget_subscription name other none c = refl
epoch-forget_subscription name other (some k) c =
    elim (Bool-cases (k == or_zero (find eq_bytes other c.sub_epochs))) [
      | inl e ↦ rw e refl
      | inr e ↦ rw e refl
    ]

kept_epoch :
    (name : Bytes) (c d : Connection)
    → Kept c d
    → subscription_epoch name c ≤ subscription_epoch name d
unfolding subscription_epoch
kept_epoch name c d h =
    let same : or_zero (find eq_bytes name d.sub_epochs)
        ≡ or_zero (find eq_bytes name c.sub_epochs) =
      ap (λ m. or_zero (find eq_bytes name m)) h.kept_epochs in
    omega (arith, same)

epoch_grows :
    (name : Bytes) {c : Connection} {e : Event} {d : Connection}
    → Update c e d
    → subscription_epoch name c ≤ subscription_epoch name d
epoch_grows name (untouched h) = kept_epoch name _ _ h
epoch_grows name {c} (remembering {name = other}) =
    grind (arith, epoch-remember_subscription name other c)
epoch_grows name {c} (forgetting {name = other} {epoch = epoch}) =
    omega (arith, epoch-forget_subscription name other epoch c)

pub epoch-react_all :
    (name : Bytes) (es : List Event) (c : Connection)
    → subscription_epoch name c ≤ subscription_epoch name (react_all es c).0
unfolding react_all
epoch-react_all name [] c = omega arith
epoch-react_all name (e ∷ es) c =
    omega (arith, epoch_grows name (react-Update e c), epoch-react_all name es (react e c).0)

forget_outdated :
    (name : Bytes) (epoch : ℕ) (c : Connection)
    → epoch < subscription_epoch name c
    → forget_subscription name (some epoch) c ≡ c
unfolding forget_subscription subscription_epoch
forget_outdated name epoch c h =
    let other : (epoch == or_zero (find eq_bytes name c.sub_epochs)) ≡ false = ground (arith, h) in
    rw other refl

-- A detach that read a channel's epoch, when anything happens afterwards and the channel is
-- subscribed to again somewhere in between, changes nothing when it forgets the subscription.
pub forget_subscription-remember_subscription :
    (name : Bytes) (before after : List Event) (c : Connection)
    → let again = remember_subscription name (react_all before c).0 in
      let late = (react_all after again).0 in
      forget_subscription name (some (subscription_epoch name c)) late ≡ late
forget_subscription-remember_subscription name before after c =
    let d = (react_all before c).0 in
    forget_outdated name (subscription_epoch name c) _ (
      grind (
        arith,
        epoch-react_all name before c,
        epoch-remember_subscription name name d,
        eq_bytes_refl name,
        epoch-react_all name after (remember_subscription name d),
      ))

-- An event is no forget of the channel, or one that gives an epoch before the given one.
abbrev pub spares : Bytes → ℕ → Event → Bool
spares name k (forget_event other none) = not (eq_bytes name other)
spares name k (forget_event other (some epoch)) = not (eq_bytes name other) || ltb epoch k
spares name k e = true

abbrev pub all_spare : Bytes → ℕ → List Event → Bool
all_spare name k [] = true
all_spare name k (e ∷ es) = spares name k e && all_spare name k es

member-add_name :
    (name other : Bytes) (names : List Bytes)
    → member eq_bytes name names ≡ true
    → member eq_bytes name (add_name other names) ≡ true
unfolding member
member-add_name name other names h = elim (Bool-cases (eq_bytes name other)) [
  | inl e ↦ rw e refl
  | inr e ↦ rw e (member-discard_other eq_bytes eq_bytes_iff name other names e ∙ h)
]

forget-member :
    (name other : Bytes) (epoch : Option ℕ) (k : ℕ) (c : Connection)
    → member eq_bytes name c.desired_subs ≡ true
    → k ≤ subscription_epoch name c
    → spares name k (forget_event other epoch) ≡ true
    → member eq_bytes name (forget_subscription other epoch c).desired_subs ≡ true
unfolding forget_subscription subscription_epoch
forget-member name other none k c h o s = elim (Bool-cases (eq_bytes name other)) [
  | inl e ↦ absurd (grind (arith, e, s))
  | inr e ↦ member-discard_other eq_bytes eq_bytes_iff name other c.desired_subs e ∙ h
]
forget-member name other (some epoch) k c h o s =
    elim (Bool-cases (epoch == or_zero (find eq_bytes other c.sub_epochs))) [
      | inl d ↦ rw d (elim (Bool-cases (eq_bytes name other)) [
        | inl e ↦
            let current : or_zero (find eq_bytes name c.sub_epochs)
                ≡ or_zero (find eq_bytes other c.sub_epochs) =
              ap (λ n. or_zero (find eq_bytes n c.sub_epochs)) ((eq_bytes_iff name other).0 e) in
            absurd (grind (arith, d, e, s, o, current))
        | inr e ↦ member-discard_other eq_bytes eq_bytes_iff name other c.desired_subs e ∙ h
      ])
      | inr d ↦ rw d h
    ]

remember-member :
    (name other : Bytes) (c : Connection)
    → member eq_bytes name c.desired_subs ≡ true
    → member eq_bytes name (remember_subscription other c).desired_subs ≡ true
unfolding remember_subscription
remember-member name other c h = member-add_name name other c.desired_subs h

split_and : (a b : Bool) → (a && b) ≡ true → (a ≡ true) × (b ≡ true)
split_and true b h = (refl, h)
split_and false b h = absurd (grind (arith, h))

Update-member :
    (name : Bytes) (k : ℕ) {c : Connection} {e : Event} {d : Connection}
    → Update c e d
    → member eq_bytes name c.desired_subs ≡ true
    → k ≤ subscription_epoch name c
    → spares name k e ≡ true
    → member eq_bytes name d.desired_subs ≡ true
Update-member name k (untouched q) h o s = ap (member eq_bytes name) q.kept_subs ∙ h
Update-member name k {c} (remembering {name = other}) h o s = remember-member name other c h
Update-member name k {c} (forgetting {name = other} {epoch = epoch}) h o s =
    forget-member name other epoch k c h o s

-- A subscription that is remembered is still remembered after
-- any events of which none forgets it with no epoch or with an epoch that is not below `k`, a number
-- that the channel's epoch has reached at the start.
pub react_all-remembered :
    (name : Bytes) (k : ℕ) (es : List Event) (c : Connection)
    → member eq_bytes name c.desired_subs ≡ true
    → k ≤ subscription_epoch name c
    → all_spare name k es ≡ true
    → member eq_bytes name (react_all es c).0.desired_subs ≡ true
unfolding react_all
react_all-remembered name k [] c h o s = h
react_all-remembered name k (e ∷ es) c h o s =
    let u = react-Update e c in
    let spared = split_and (spares name k e) (all_spare name k es) s in
    react_all-remembered name k es (react e c).0 (Update-member name k u h o spared.0)
      (omega (arith, epoch_grows name u, o)) spared.1
