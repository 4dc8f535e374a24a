-- ===== src/Labrpc.antt =====
-- The simulated network: src/labrpc/labrpc.go. The names of ends and servers are numbers, and so are the
-- addresses of the servers; `store` holds the server at each address. The bytes of arguments and
-- replies come from src/labgob, on either side. A coin that rand throws is an argument.
pub mod Network
pub mod Split
pub mod Trip
pub mod Answer
pub mod Quiet
pub mod Undisturbed
pub mod Counting
mod Examples
use model_lib.Prelude.{
  ℕ, ◌+◌, Bool, true, false, not, ◌||◌, Option, none, some, List, [], ◌∷◌, ◌==◌, if◌then◌else◌,
}
use model_lib.Prelude.Strings.{same_bytes}

-- `m[k]`, none for a missing key, on a map as an association list; `m[k] = v` is a new first pair.
abbrev pub at_key {ℓ} : {A : Type ℓ} → ℕ → List (ℕ × A) → Option A
at_key k [] = none
at_key k ((k', a) ∷ m) = let rest = at_key k m in if k == k' then some a else rest

-- The same, for names that are strings.
abbrev pub at_name {ℓ} : {A : Type ℓ} → List ℕ → List (List ℕ × A) → Option A
at_name k [] = none
at_name k ((k', a) ∷ m) = let rest = at_name k m in if same_bytes k k' then some a else rest

-- A handler changes the object that it is called on, and turns the argument's bytes into the reply's.
abbrev pub Method : Type 0 → Type 0
Method S = S → List ℕ → S × List ℕ

-- What MakeService reads of a method's type.
pub record MethodType : Type 0 where
  pub pkg_path : List ℕ
  pub num_in : ℕ
  pub in_2_is_ptr : Bool
  pub num_out : ℕ

pub record Service (S : Type 0) : Type 0 where
  pub name : List ℕ
  pub rcvr : S
  pub methods : List (List ℕ × Method S)

pub record Server (S : Type 0) : Type 0 where
  pub services : List (List ℕ × Service S)
  pub count : ℕ

pub record ReqMsg : Type 0 where
  pub endname : ℕ
  pub svc_meth : List ℕ
  pub args : List ℕ

pub record ReplyMsg : Type 0 where
  pub ok : Bool
  pub reply : List ℕ

abbrev pub failed : ReplyMsg
failed = record { ok = false; reply = [] }

-- The method looks like a handler.
unfoldable pub is_handler : MethodType → Bool
is_handler t = not (
    not (same_bytes t.pkg_path [])
    || not (t.num_in == 3)
    || not t.in_2_is_ptr
    || not (t.num_out == 0))

module _ {S : Type 0} where
  abbrev pub handlers_of : List (List ℕ × MethodType × Method S) → List (List ℕ × Method S)
  handlers_of [] = []
  handlers_of ((name, type, method) ∷ methods) =
      let rest = handlers_of methods in if is_handler type then (name, method) ∷ rest else rest

  unfoldable pub make_service : List ℕ → S → List (List ℕ × MethodType × Method S) → Service S
  make_service name rcvr methods = record {
    name = name;
    rcvr = rcvr;
    methods = handlers_of methods;
  }

  pub make_server : Server S
  make_server = record { services = []; count = 0 }

  unfoldable pub add_service : Service S → Server S → Server S
  add_service svc rs = record rs { services = (svc.name, svc) ∷ rs.services }

-- strings.LastIndex(svcMeth, "."), as the parts on both sides; `none` if there is no dot.
abbrev pub before_dot : ℕ → Option (List ℕ × List ℕ) → List ℕ → Option (List ℕ × List ℕ)
before_dot c none rest = if c == b'.' then some ([], rest) else none
before_dot c (some (service, method)) rest = some (c ∷ service, method)

unfoldable pub split_last_dot : List ℕ → Option (List ℕ × List ℕ)
split_last_dot [] = none
split_last_dot (c ∷ text) = before_dot c (split_last_dot text) text

-- The result of a dispatch: the reply with the new state, or the end of the process.
pub data Dispatched {ℓ} (A : Type ℓ) : Type ℓ where
  replies : A → ReplyMsg → Dispatched A
  slice_out_of_range : Dispatched A
  unknown_service : Dispatched A
  unknown_method : Dispatched A

module _ {S : Type 0} where
  unfoldable pub service_dispatch : List ℕ → ReqMsg → Service S → Dispatched (Service S)
  service_dispatch methname req svc = elim (at_name methname svc.methods) [
    | some method ↦
        let (rcvr, reply) = method svc.rcvr req.args in
        replies (record svc { rcvr = rcvr }) (record { ok = true; reply = reply })
    | none ↦ unknown_method
  ]

  abbrev pub in_server : Server S → List ℕ → Dispatched (Service S) → Dispatched (Server S)
  in_server rs name (replies svc reply) =
      replies (record rs { services = (name, svc) ∷ rs.services }) reply
  in_server rs name slice_out_of_range = slice_out_of_range
  in_server rs name unknown_service = unknown_service
  in_server rs name unknown_method = unknown_method

  abbrev pub to_method :
      ReqMsg → Server S → List ℕ → List ℕ → Option (Service S) → Dispatched (Server S)
  to_method req rs service_name method_name none = unknown_service
  to_method req rs service_name method_name (some svc) =
      in_server rs service_name (service_dispatch method_name req svc)

  abbrev pub to_service : ReqMsg → Server S → Option (List ℕ × List ℕ) → Dispatched (Server S)
  to_service req rs none = slice_out_of_range
  to_service req rs (some (service_name, method_name)) =
      to_method req rs service_name method_name (at_name service_name rs.services)

  unfoldable pub server_dispatch : ReqMsg → Server S → Dispatched (Server S)
  server_dispatch req rs =
      to_service req (record rs { count = rs.count + 1 }) (split_last_dot req.svc_meth)
