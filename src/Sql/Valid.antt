-- ===== src/Sql/Valid.antt =====
-- The UNIQUE constraints and primary keys of the tables, as an invariant of the statements.
pub mod Apart
pub mod Keys
pub mod Updates
pub mod Changes
use evercore.Base.{
  ◌<◌, ℕ, String, Bool, false, ◌&&◌, List, [], ◌∷◌, Option, none, some, ◌==◌, leb, ◌≡◌, string_eq,
  nat_eq, All,
}
use evercore.Types.{IdNamePair, StorageEngineEvent, Snapshot, Subscription}
use evercore.Sql.Tables.Rows.{Tables, AggregateRow, EventRow, SnapshotRow}
use evercore.Sql.Tables.Streams.{at_sequence, has_key}
use evercore.Sql.Tables.Streams as Streams
use evercore.Sql.Tables.Subscriptions.{is_type_of}
use evercore.Sql.Tables.Subscriptions as Subscriptions

-- No row is in conflict with a later one.
abbrev pub Apart : {A : Type 0} → (A → A → Bool) → List A → Type 0
Apart same [] = Unit
Apart same (x ∷ xs) = All (λ o. same x o ≡ false) xs × Apart same xs

-- The conflicts that the tables forbid.
abbrev pub same_pair_id : IdNamePair → IdNamePair → Bool
same_pair_id a b = a.id == b.id

abbrev pub same_pair_name : IdNamePair → IdNamePair → Bool
same_pair_name a b = a.name == b.name

abbrev pub same_aggregate : AggregateRow → AggregateRow → Bool
same_aggregate a b = a.id == b.id

abbrev pub same_key : AggregateRow → AggregateRow → Bool
same_key a b = elim b.natural_key [ none ↦ false | some k ↦ has_key k a ]

-- The ids of events ascend, from 1 on.
abbrev pub not_later : EventRow → EventRow → Bool
not_later a b = leb b.id a.id

abbrev pub same_sequence : EventRow → EventRow → Bool
same_sequence a b = at_sequence b.aggregate_id b.sequence a

abbrev pub same_snapshot : SnapshotRow → SnapshotRow → Bool
same_snapshot a b = a.aggregate_id == b.aggregate_id && a.sequence == b.sequence

abbrev pub same_subscription : Subscription → Subscription → Bool
same_subscription a b = a.id == b.id

abbrev pub same_name : Subscription → Subscription → Bool
same_name a b = a.name == b.name

abbrev pub same_member : ℕ × ℕ → ℕ × ℕ → Bool
same_member a b = is_type_of b.0 b.1 a

-- The constraints of each table.
abbrev pub TypesValid : List IdNamePair → Type 0
TypesValid types = Apart same_pair_id types × Apart same_pair_name types

abbrev pub AggregatesValid : List AggregateRow → Type 0
AggregatesValid rows = Apart same_aggregate rows × Apart same_key rows

abbrev pub EventsValid : List EventRow → Type 0
EventsValid rows = Apart not_later rows × All (λ e. 0 < e.id) rows × Apart same_sequence rows

abbrev pub SubscriptionsValid : List Subscription → Type 0
SubscriptionsValid subs = Apart same_subscription subs × Apart same_name subs

pub record IsValid (t : Tables) : Type 0 where
  pub aggregate_types : TypesValid t.aggregate_types
  pub event_types : TypesValid t.event_types
  pub aggregates : AggregatesValid t.aggregates
  pub events : EventsValid t.events
  pub snapshots : Apart same_snapshot t.snapshots
  pub subscriptions : SubscriptionsValid t.subscriptions
  pub members : Apart same_member t.subscription_event_types

-- The statements that change a table.
pub data Change : Type 0 where
  adds_aggregate_type adds_event_type : String → Change
  adds_aggregate : ℕ → Change
  adds_aggregate_with_key : ℕ → String → Change
  changes_key : String → ℕ → Change
  adds_event : StorageEngineEvent → Change
  adds_snapshot : Snapshot → Change
  upserts : String → Option ℕ → Option ℕ → Option String → String → ℕ → Option ℕ → Change
  adds_member : ℕ → ℕ → Change
  activates : Bool → ℕ → Change
  claims : String → ℕ → String → ℕ → Change
  renews : ℕ → String → String → Change
  releases : String → String → Change
  advances : ℕ → ℕ → Change

unfoldable pub change : Change → Tables → Tables
change (adds_aggregate_type name) t = (Streams.add_aggregate_type name t).1
change (adds_event_type name) t = (Streams.add_event_type name t).1
change (adds_aggregate type_id) t = (Streams.add_aggregate type_id t).1
change (adds_aggregate_with_key type_id key) t =
    (Streams.add_aggregate_with_natural_key type_id key t).1
change (changes_key key id) t = (Streams.change_aggregate_natural_key key id t).1
change (adds_event e) t = (Streams.add_event e t).1
change (adds_snapshot s) t = (Streams.add_snapshot s t).1
change (upserts name at et key from id ts) t =
    (Subscriptions.upsert_subscription name at et key from id ts t).1
change (adds_member id type_id) t = (Subscriptions.insert_subscription_event_type id type_id t).1
change (activates b id) t = (Subscriptions.update_active b id t).1
change (claims owner until name now) t =
    (Subscriptions.update_lease_if_free owner until name now t).1
change (renews until name owner) t = (Subscriptions.update_lease_of until name owner t).1
change (releases name owner) t = (Subscriptions.clear_lease_of name owner t).1
change (advances cursor id) t = (Subscriptions.update_cursor cursor id t).1

unfoldable pub change_all : List Change → Tables → Tables
unfolding change
change_all [] t = t
change_all (c ∷ cs) t = change_all cs (change c t)
