-- ===== src/Net/Poller/Registration.antt =====
-- server/muduo/EPollPoller.cc: what the system watches is what the channels say.
use arena_game.Prelude.{
  ℕ, ◌≡◌, ◌≢◌, refl, sym, subst, ◌∙◌, Bool, true, false, ◌||◌, none, some, List, [], ◌∷◌, ◌==◌,
  nat_eq, nat_beq_iff, beq_refl, beq_ne, if◌then◌else◌, arith, inl, inr, Bool-cases,
}
use arena_game.Prelude.Map.{Map, lookup, insert, erase, lookup-insert, lookup-erase}
use arena_game.Net.Channel.{Interest, Index, fresh, added, deleted, Channel, is_none_event}
use arena_game.Net.Poller.{
  Poller, update, update_channel, remove_channel, enable_reading, disable_reading, enable_writing,
  disable_writing, disable_all, ctl_add, ctl_mod, ctl_del,
}

-- What the index of a channel says of the poller; whatever it was watched for.
abbrev Stands : Index → Channel → Poller → Type 0
Stands fresh ch p = lookup ch.fd p.watched ≡ none
Stands added ch p =
    ((e : Interest) × (lookup ch.fd p.watched ≡ some (e, ch.address)))
    × (lookup ch.fd p.channels ≡ some ch.address)
Stands deleted ch p = (lookup ch.fd p.watched ≡ none) × (lookup ch.fd p.channels ≡ some ch.address)

-- The same, and it is watched for what it says.
abbrev pub Agrees : Index → Channel → Poller → Type 0
Agrees fresh ch p = lookup ch.fd p.watched ≡ none
Agrees added ch p =
    (lookup ch.fd p.watched ≡ some (ch.events, ch.address))
    × (lookup ch.fd p.channels ≡ some ch.address)
Agrees deleted ch p = (lookup ch.fd p.watched ≡ none) × (lookup ch.fd p.channels ≡ some ch.address)

-- Nothing changes for another descriptor.
abbrev SameElsewhere : ℕ → Poller → Poller → Type 0
SameElsewhere fd p q =
    (j : ℕ)
    → fd ≢ j
    → (lookup j q.watched ≡ lookup j p.watched) × (lookup j q.channels ≡ lookup j p.channels)

-- What a call has made of a channel and the poller.
pub record IsUpdated (ch : Channel) (p : Poller) (result : Channel × Poller) : Type 0 where
  pub same_fd : result.0.fd ≡ ch.fd
  pub agrees : Agrees result.0.index result.0 result.1
  pub runs : result.1.fatal ≡ p.fatal
  pub elsewhere : SameElsewhere ch.fd p result.1

or_false : (b : Bool) → (b || false) ≡ b
or_false true = refl
or_false false = refl

module _ {V : Type 0} (k : ℕ) (v : V) (m : Map ℕ V) where
  insert_self : lookup k (insert k v m) ≡ some v
  insert_self = lookup-insert k k v m ∙ rw (beq_refl k) refl

  insert_other : (j : ℕ) → k ≢ j → lookup j (insert k v m) ≡ lookup j m
  insert_other j d = lookup-insert k j v m ∙ rw (beq_ne k j d) refl

module _ {V : Type 0} (k : ℕ) (m : Map ℕ V) where
  erase_self : lookup k (erase k m) ≡ none
  erase_self = lookup-erase k k m ∙ rw (beq_refl k) refl

  erase_other : (j : ℕ) → k ≢ j → lookup j (erase k m) ≡ lookup j m
  erase_other j d = lookup-erase k j m ∙ rw (beq_ne k j d) refl

update_add :
    (ch : Channel) (p : Poller)
    → lookup ch.fd p.watched ≡ none
    → update ctl_add ch p ≡ record p { watched = insert ch.fd (ch.events, ch.address) p.watched }
unfolding update
update_add ch p h = ground (arith, h, or_false p.fatal)

update_mod :
    (ch : Channel) (p : Poller) (e : Interest × ℕ)
    → lookup ch.fd p.watched ≡ some e
    → update ctl_mod ch p ≡ record p { watched = insert ch.fd (ch.events, ch.address) p.watched }
unfolding update
update_mod ch p e h = ground (arith, h, or_false p.fatal)

update_del :
    (ch : Channel) (p : Poller) (e : Interest × ℕ)
    → lookup ch.fd p.watched ≡ some e
    → update ctl_del ch p ≡ record p { watched = erase ch.fd p.watched }
unfolding update
update_del ch p e h = ground (arith, h, or_false p.fatal)

update_channel_lem :
    (i : Index) (ch : Channel) (p : Poller)
    → Stands i ch p
    → IsUpdated ch p (update_channel (record ch { index = i }) p)
unfolding update_channel update is_none_event
update_channel_lem fresh ch p h =
    subst (λ q. IsUpdated ch p (record ch { index = added }, q))
      (sym (update_add ch (record p { channels = insert ch.fd ch.address p.channels }) h))
      (record {
        same_fd = refl;
        agrees = (
          insert_self ch.fd (ch.events, ch.address) p.watched,
          insert_self ch.fd ch.address p.channels,
        );
        runs = refl;
        elsewhere = λ j d. (
          insert_other ch.fd (ch.events, ch.address) p.watched j d,
          insert_other ch.fd ch.address p.channels j d,
        );
      })
update_channel_lem added ch p ((e, w), c) = elim (Bool-cases (is_none_event ch)) [
  | inl n ↦ rw n (
      subst (λ q. IsUpdated ch p (record ch { index = deleted }, q)) (sym (update_del ch p _ w))
        (record {
          same_fd = refl;
          agrees = (erase_self ch.fd p.watched, c);
          runs = refl;
          elsewhere = λ j d. (erase_other ch.fd p.watched j d, refl);
        }))
  | inr n ↦ rw n (
      subst (λ q. IsUpdated ch p (record ch { index = added }, q)) (sym (update_mod ch p _ w))
        (record {
          same_fd = refl;
          agrees = (insert_self ch.fd (ch.events, ch.address) p.watched, c);
          runs = refl;
          elsewhere = λ j d. (insert_other ch.fd (ch.events, ch.address) p.watched j d, refl);
        }))
]
update_channel_lem deleted ch p (w, c) =
    subst (λ q. IsUpdated ch p (record ch { index = added }, q)) (sym (update_add ch p w))
      (record {
        same_fd = refl;
        agrees = (insert_self ch.fd (ch.events, ch.address) p.watched, c);
        runs = refl;
        elsewhere = λ j d. (insert_other ch.fd (ch.events, ch.address) p.watched j d, refl);
      })

remove_channel_lem :
    (i : Index) (ch : Channel) (p : Poller)
    → Stands i ch p
    → IsUpdated ch p (remove_channel (record ch { index = i }) p)
unfolding remove_channel update
remove_channel_lem fresh ch p h = record {
  same_fd = refl;
  agrees = h;
  runs = refl;
  elsewhere = λ j d. (refl, erase_other ch.fd p.channels j d);
}
remove_channel_lem added ch p ((e, w), c) =
    subst (λ q. IsUpdated ch p (record ch { index = fresh }, q))
      (sym (update_del ch (record p { channels = erase ch.fd p.channels }) _ w))
      (record {
        same_fd = refl;
        agrees = erase_self ch.fd p.watched;
        runs = refl;
        elsewhere = λ j d. (erase_other ch.fd p.watched j d, erase_other ch.fd p.channels j d);
      })
remove_channel_lem deleted ch p (w, c) = record {
  same_fd = refl;
  agrees = w;
  runs = refl;
  elsewhere = λ j d. (refl, erase_other ch.fd p.channels j d);
}

changed-Stands :
    (i : Index) (e : Interest) (ch : Channel) (p : Poller)
    → Agrees i ch p
    → Stands i (record ch { events = e }) p
changed-Stands fresh e ch p a = a
changed-Stands added e ch p (w, c) = ((ch.events, w), c)
changed-Stands deleted e ch p a = a

Agrees-Stands : (i : Index) (ch : Channel) (p : Poller) → Agrees i ch p → Stands i ch p
Agrees-Stands fresh ch p a = a
Agrees-Stands added ch p (w, c) = ((ch.events, w), c)
Agrees-Stands deleted ch p a = a

-- A channel whose events have changed before `update`.
changed-IsUpdated :
    (e : Interest) (ch : Channel) (p : Poller)
    → Agrees ch.index ch p
    → IsUpdated ch p (update_channel (record ch { events = e }) p)
changed-IsUpdated e ch p a =
    let u =
      update_channel_lem ch.index (record ch { events = e }) p (changed-Stands ch.index e ch p a) in
    record { same_fd = u.same_fd; agrees = u.agrees; runs = u.runs; elsewhere = u.elsewhere }

-- The operations of `Channel` that reach the poller.
pub data ChannelOperation : Type 0 where
  enables_reading disables_reading enables_writing disables_writing disables_all removes :
      ChannelOperation

abbrev pub run_channel : ChannelOperation → Channel → Poller → Channel × Poller
run_channel enables_reading = enable_reading
run_channel disables_reading = disable_reading
run_channel enables_writing = enable_writing
run_channel disables_writing = disable_writing
run_channel disables_all = disable_all
run_channel removes = remove_channel

pub run_channel-IsUpdated :
    (op : ChannelOperation) (ch : Channel) (p : Poller)
    → Agrees ch.index ch p
    → IsUpdated ch p (run_channel op ch p)
unfolding enable_reading disable_reading enable_writing disable_writing disable_all
run_channel-IsUpdated enables_reading ch p a = changed-IsUpdated _ ch p a
run_channel-IsUpdated disables_reading ch p a = changed-IsUpdated _ ch p a
run_channel-IsUpdated enables_writing ch p a = changed-IsUpdated _ ch p a
run_channel-IsUpdated disables_writing ch p a = changed-IsUpdated _ ch p a
run_channel-IsUpdated disables_all ch p a = changed-IsUpdated _ ch p a
run_channel-IsUpdated removes ch p a =
    remove_channel_lem ch.index ch p (Agrees-Stands ch.index ch p a)

-- `update` leaves the events that it was called for.
pub events-update_channel :
    (i : Index) (ch : Channel) (p : Poller)
    → (update_channel (record ch { index = i }) p).0.events ≡ ch.events
unfolding update_channel
events-update_channel fresh ch p = refl
events-update_channel added ch p = elim (Bool-cases (is_none_event (record ch { index = added }))) [
  | inl n ↦ rw n refl
  | inr n ↦ rw n refl
]
events-update_channel deleted ch p = refl

-- Some channels by descriptor, and one poller.
pub record Watching : Type 0 where
  pub channels : ℕ → Channel
  pub poller : Poller

abbrev put_channel : ℕ → Channel × Poller → Watching → Watching
put_channel fd (ch, p) w = record {
  channels = λ j. if fd == j then ch else w.channels j;
  poller = p;
}

-- Operations on channels, one after the other.
abbrev pub run_channels : List (ℕ × ChannelOperation) → Watching → Watching
run_channels [] w = w
run_channels ((fd, op) ∷ ops) w =
    run_channels ops (put_channel fd (run_channel op (w.channels fd) w.poller) w)

-- The program runs, and the system watches each channel that is added, for its events, and no other.
pub record IsWatching (w : Watching) : Type 0 where
  pub alive : w.poller.fatal ≡ false
  pub own_fd : (fd : ℕ) → (w.channels fd).fd ≡ fd
  pub all_agree : (fd : ℕ) → Agrees (w.channels fd).index (w.channels fd) w.poller

-- What is elsewhere the same leaves another channel in agreement.
same-Agrees :
    (i : Index) (ch : Channel) (fd : ℕ) (p q : Poller)
    → SameElsewhere fd p q
    → fd ≢ ch.fd
    → Agrees i ch p
    → Agrees i ch q
same-Agrees fresh ch fd p q s d a = (s ch.fd d).0 ∙ a
same-Agrees added ch fd p q s d (w, c) = ((s ch.fd d).0 ∙ w, (s ch.fd d).1 ∙ c)
same-Agrees deleted ch fd p q s d (w, c) = ((s ch.fd d).0 ∙ w, (s ch.fd d).1 ∙ c)

module _ (fd : ℕ) (op : ChannelOperation) (w : Watching) (v : IsWatching w) where
  updated : IsUpdated (w.channels fd) w.poller (run_channel op (w.channels fd) w.poller)
  updated = run_channel-IsUpdated op (w.channels fd) w.poller (v.all_agree fd)

  put_channel-IsWatching : IsWatching (put_channel fd (run_channel op (w.channels fd) w.poller) w)
  put_channel-IsWatching = record {
    alive = updated.runs ∙ v.alive;
    own_fd = λ j. elim (Bool-cases (fd == j)) [
      | inl e ↦ rw e (updated.same_fd ∙ v.own_fd fd ∙ (nat_beq_iff fd j).0 e)
      | inr e ↦ rw e (v.own_fd j)
    ];
    all_agree = λ j. elim (Bool-cases (fd == j)) [
      | inl e ↦ rw e updated.agrees
      | inr e ↦ rw e (
          same-Agrees _ (w.channels j) fd w.poller _
            (subst (λ k. SameElsewhere k w.poller (run_channel op (w.channels fd) w.poller).1)
              (v.own_fd fd) updated.elsewhere)
            (λ d. ground (arith, e, d, nat_beq_iff fd j, v.own_fd j)) (v.all_agree j))
    ];
  }

-- Where the system watches exactly the channels that are added, each for its events, it still does
-- after any run of operations on the channels, and no call of `epoll_ctl` ends the program.
pub run_channels-IsWatching :
    (ops : List (ℕ × ChannelOperation)) (w : Watching)
    → IsWatching w
    → IsWatching (run_channels ops w)
run_channels-IsWatching [] w v = v
run_channels-IsWatching ((fd, op) ∷ ops) w v =
    run_channels-IsWatching ops _ (put_channel-IsWatching fd op w v)
