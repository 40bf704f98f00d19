-- ===== src/Manager/Later.antt =====
-- What the sessions and the tasks of membership/ stand on stays true as a run goes on.
use comlink.Common.{inl, inr, true, List, [], ◌∷◌, ◌++◌, All}
use comlink.Common.Assoc.{bytes_key, index_key}
use comlink.Frame.{FrameCodec}
use comlink.Messages.{ReplicaId}
use comlink.Manager.{Task, VoteOutSession, read_frame, remove_out, count_out}
use comlink.Manager.Elections.{Happened-append_left, Backer, IsTallied, IsElected, IsGood, IsDue}
use comlink.Manager.Kept.{Core}
use comlink.Manager.Runs.{Event, backs, listing}

Backer-later :
    (xs ys : List Event) (self t r : ReplicaId) → Backer xs self t r → Backer (xs ++ ys) self t r
Backer-later xs ys self t r (inl p) = inl p
Backer-later xs ys self t r (inr h) = inr (Happened-append_left xs ys (backs r t) h)

IsTallied-later :
    (xs ys : List Event) (self t : ReplicaId) (s : VoteOutSession)
    → IsTallied xs self t s
    → IsTallied (xs ++ ys) self t s
IsTallied-later xs ys self t s v = record {
  started = Happened-append_left xs ys (listing s.members_at_start) v.started;
  distinct = v.distinct;
  backed = λ r u e. Backer-later xs ys self t r (v.backed r u e);
}

IsElected-later :
    (xs ys : List Event) (self t : ReplicaId) → IsElected xs self t → IsElected (xs ++ ys) self t
IsElected-later xs ys self t v = record {
  electorate = v.electorate;
  backers = v.backers;
  were_listed = Happened-append_left xs ys (listing v.electorate) v.were_listed;
  distinct = v.distinct;
  backed = λ r u e. Backer-later xs ys self t r (v.backed r u e);
  majority = v.majority;
}

pub IsGood-later : (xs ys : List Event) (k : Core) → IsGood xs k → IsGood (xs ++ ys) k
IsGood-later xs ys k g = record {
  listed = g.listed;
  fine = λ t n s e. let (v, ne) = g.fine t n s e in (IsTallied-later xs ys k.self t s v, ne);
}

pub IsDue-later :
    (c : FrameCodec) (xs ys : List Event) (self : ReplicaId) (t : Task)
    → IsDue c xs self t
    → IsDue c (xs ++ ys) self t
IsDue-later c xs ys self (count_out t n true r) h = Happened-append_left xs ys (backs r t) h
IsDue-later c xs ys self (remove_out t n) (ne, v) = (ne, IsElected-later xs ys self t v)
IsDue-later c xs ys self (read_frame payload sender) h = λ e p. Happened-append_left xs ys e (h e p)
IsDue-later c xs ys self _ h = tt

pub IsDue-all_later :
    (c : FrameCodec) (xs ys : List Event) (self : ReplicaId) (ts : List Task)
    → All (IsDue c xs self) ts
    → All (IsDue c (xs ++ ys) self) ts
IsDue-all_later c xs ys self [] h = tt
IsDue-all_later c xs ys self (t ∷ ts) (h, hs) =
    (IsDue-later c xs ys self t h, IsDue-all_later c xs ys self ts hs)

pub IsDue-each_later :
    (c : FrameCodec) (xs ys : List Event) (self : ReplicaId) (tss : List (List Task))
    → All (All (IsDue c xs self)) tss
    → All (All (IsDue c (xs ++ ys) self)) tss
IsDue-each_later c xs ys self [] h = tt
IsDue-each_later c xs ys self (ts ∷ tss) (h, hs) =
    (IsDue-all_later c xs ys self ts h, IsDue-each_later c xs ys self tss hs)

pub All-append_left {ℓ κ} :
    {A : Type ℓ} (P : A → Type κ) (xs ys : List A) → All P (xs ++ ys) → All P xs
All-append_left P [] ys h = tt
All-append_left P (x ∷ xs) ys (h, hs) = (h, All-append_left P xs ys hs)

pub All-append_right {ℓ κ} :
    {A : Type ℓ} (P : A → Type κ) (xs ys : List A) → All P (xs ++ ys) → All P ys
All-append_right P [] ys h = h
All-append_right P (x ∷ xs) ys (h, hs) = All-append_right P xs ys hs
