-- ===== src/Net/Poller.antt =====
-- server/muduo/Poller.h, Poller.cc, EPollPoller.h and EPollPoller.cc: which channels the system
-- watches.
pub mod Registration
use arena_game.Prelude.{
  ℕ, zero, suc, ◌≡◌, ◌≢◌, refl, ap, sym, ◌∙◌, Bool, true, false, not, ◌&&◌, ◌||◌, Option, none,
  some, List, [], ◌∷◌, ◌==◌, nat_eq, nat_beq_iff, beq_refl, beq_ne, if◌then◌else◌, arith, ◌⊎◌, inl,
  inr, Bool-cases, Option-cases,
}
use arena_game.Prelude.Map.{Map, lookup, insert, erase, lookup-insert, lookup-erase}
use arena_game.Net.Channel.{
  Interest, no_event, Ready, Index, fresh, added, deleted, Channel, is_none_event, with_reading,
  with_writing, with_nothing,
}

-- `channels_`, by descriptor the addresses of the channels; what the system has registered under
-- `epollfd_`; and whether `LOG_FATAL` has ended the program.
pub record Poller : Type 0 where
  pub channels : Map ℕ ℕ
  pub watched : Map ℕ (Interest × ℕ)
  pub fatal : Bool

pub data Operation : Type 0 where
  ctl_add ctl_mod ctl_del : Operation

-- `epoll_ctl`: it adds what is not there, and changes and takes away what is. `false` on an error.
abbrev pub epoll_ctl :
    Operation → ℕ → Interest × ℕ → Map ℕ (Interest × ℕ) → Map ℕ (Interest × ℕ) × Bool
epoll_ctl ctl_add fd event watched = elim (lookup fd watched) [
  | none ↦ (insert fd event watched, true)
  | some _ ↦ (watched, false)
]
epoll_ctl ctl_mod fd event watched = elim (lookup fd watched) [
  | none ↦ (watched, false)
  | some _ ↦ (insert fd event watched, true)
]
epoll_ctl ctl_del fd event watched = elim (lookup fd watched) [
  | none ↦ (watched, false)
  | some _ ↦ (erase fd watched, true)
]

abbrev pub is_del : Operation → Bool
is_del ctl_add = false
is_del ctl_mod = false
is_del ctl_del = true

unfoldable pub update : Operation → Channel → Poller → Poller
update operation ch p =
    let (watched, done) = epoll_ctl operation ch.fd (ch.events, ch.address) p.watched in
    record p { watched = watched; fatal = p.fatal || (not done && not (is_del operation)) }

unfoldable pub update_channel : Channel → Poller → Channel × Poller
unfolding is_none_event update
update_channel ch p = elim ch.index [
  | fresh ↦ (
    record ch { index = added },
    update ctl_add ch (record p { channels = insert ch.fd ch.address p.channels }),
  )
  | deleted ↦ (record ch { index = added }, update ctl_add ch p)
  | added ↦
      if is_none_event ch
      then (record ch { index = deleted }, update ctl_del ch p)
      else (ch, update ctl_mod ch p)
]

abbrev pub is_added : Index → Bool
is_added fresh = false
is_added added = true
is_added deleted = false

unfoldable pub remove_channel : Channel → Poller → Channel × Poller
unfolding update
remove_channel ch p =
    let erased = record p { channels = erase ch.fd p.channels } in
    (record ch { index = fresh }, if is_added ch.index then update ctl_del ch erased else erased)

unfoldable pub has_channel : Channel → Poller → Bool
has_channel ch p = elim (lookup ch.fd p.channels) [ none ↦ false | some c ↦ c == ch.address ]

-- The calls of `Channel` that end in `update`.
unfoldable pub enable_reading : Channel → Poller → Channel × Poller
unfolding update_channel
enable_reading ch p = update_channel (with_reading true ch) p

unfoldable pub disable_reading : Channel → Poller → Channel × Poller
unfolding update_channel
disable_reading ch p = update_channel (with_reading false ch) p

unfoldable pub enable_writing : Channel → Poller → Channel × Poller
unfolding update_channel
enable_writing ch p = update_channel (with_writing true ch) p

unfoldable pub disable_writing : Channel → Poller → Channel × Poller
unfolding update_channel
disable_writing ch p = update_channel (with_writing false ch) p

unfoldable pub disable_all : Channel → Poller → Channel × Poller
unfolding update_channel
disable_all ch p = update_channel (with_nothing ch) p
