-- ===== src/Context.antt =====
-- context.py: the variables `request_id` and `correlation_id`.
--
-- `Context` is what the two variables hold in the task at hand. `bind` is a `with` statement around a
-- body that may raise, and that may set the variables itself.

use resilience_kit.Prelude.{String, Option, none, some, ◌≡◌, refl}

pub record Context : Type 0 where
  pub request_id : Option String
  pub correlation_id : Option String

-- The value that a variable has in the block.
abbrev pub bound : Option String → Option String → Option String
bound none current = current
bound (some value) current = some value

-- The value after the block: a token restores what was there before.
abbrev pub restored : Option String → Option String → Option String → Option String
restored none before after = after
restored (some value) before after = before

abbrev pub entered : Option String → Option String → Context → Context
entered rid cid c = record {
  request_id = bound rid c.request_id;
  correlation_id = bound cid c.correlation_id;
}

abbrev pub left : Option String → Option String → Context → Context → Context
left rid cid before after = record {
  request_id = restored rid before.request_id after.request_id;
  correlation_id = restored cid before.correlation_id after.correlation_id;
}

unfoldable pub bind :
    {S A : Type 0}
    → Option String
    → Option String
    → (Context × S → (Context × S) × A)
    → Context × S
    → (Context × S) × A
bind rid cid body (c, s) =
    let ((c', s'), a) = body (entered rid cid c, s) in ((left rid cid c c', s'), a)

-- A block that gives both ids leaves the variables as they were, whatever its body does.
bind_restored :
    {S A : Type 0} (rid cid : String) (body : Context × S → (Context × S) × A) (c : Context) (s : S)
    → (bind (some rid) (some cid) body (c, s)).0.0 ≡ c
unfolding bind
bind_restored rid cid body c s = refl
