-- ===== src/Access.antt =====
-- packages/contract/src/access.ts: what each group of operators may do. A permission is a resource
-- and an action, which the source writes with a colon between.
pub mod Rights
use conference_operator.Common.{
  String, Bool, true, false, ◌&&◌, ◌||◌, Option, none, some, List, [], ◌∷◌, ◌++◌, map, str_eq,
  if◌then◌else◌,
}
use conference_operator.Common.Maps.{get}
use Prim.Native.String
use Prim.Native.Nat.{Ordering}

pub record Permission : Type 0 where
  pub resource : String
  pub action : String

abbrev pub Grant : Type 0
Grant = List (String × List String)

abbrev read_only : List String
read_only = "read" ∷ []

abbrev manages : List String
manages = "read" ∷ "manage" ∷ []

abbrev reads : Grant
reads =
    ("program", read_only)
    ∷ ("room", read_only)
    ∷ ("talk", read_only)
    ∷ ("overlay", read_only)
    ∷ ("message", read_only)
    ∷ ("regie", "view" ∷ [])
    ∷ ("vod", read_only)
    ∷ ("clock", read_only)
    ∷ []

abbrev admin : Grant
admin =
    ("program", manages)
    ∷ ("room", manages)
    ∷ ("device", manages)
    ∷ ("talk", "read" ∷ "run" ∷ "override" ∷ [])
    ∷ ("overlay", "read" ∷ "show" ∷ [])
    ∷ ("message", "read" ∷ "send" ∷ "urgent" ∷ [])
    ∷ ("wall", "moderate" ∷ [])
    ∷ ("regie", "view" ∷ "command" ∷ [])
    ∷ ("vod", manages)
    ∷ ("clock", "read" ∷ "set" ∷ [])
    ∷ ("settings", "read" ∷ "update" ∷ [])
    ∷ ("push", "subscribe" ∷ [])
    ∷ ("audit", read_only)
    ∷ (
      "user",
      "create" ∷ "list" ∷ "set-role" ∷ "ban" ∷ "delete" ∷ "set-password" ∷ "set-email" ∷ "get"
          ∷ "update" ∷ [],
    )
    ∷ ("session", "list" ∷ "revoke" ∷ "delete" ∷ [])
    ∷ []

-- `...READS`, with the entries that follow it.
abbrev programme_tech : Grant
programme_tech =
    ("program", manages)
    ∷ ("room", manages)
    ∷ ("talk", "read" ∷ "run" ∷ "override" ∷ [])
    ∷ ("overlay", "read" ∷ "show" ∷ [])
    ∷ ("message", read_only)
    ∷ ("regie", "view" ∷ [])
    ∷ ("vod", manages)
    ∷ ("clock", "read" ∷ "set" ∷ [])
    ∷ ("device", manages)
    ∷ ("settings", "read" ∷ "update" ∷ [])
    ∷ ("push", "subscribe" ∷ [])
    ∷ []

abbrev moderation : Grant
moderation =
    ("program", read_only)
    ∷ ("room", read_only)
    ∷ ("wall", "moderate" ∷ [])
    ∷ ("message", "read" ∷ "send" ∷ [])
    ∷ ("push", "subscribe" ∷ [])
    ∷ []

abbrev regie_mobile : Grant
regie_mobile =
    ("program", read_only)
    ∷ ("room", read_only)
    ∷ ("regie", "view" ∷ "command" ∷ [])
    ∷ ("talk", "read" ∷ "run" ∷ [])
    ∷ ("overlay", "read" ∷ "show" ∷ [])
    ∷ ("message", "read" ∷ "send" ∷ [])
    ∷ ("push", "subscribe" ∷ [])
    ∷ []

abbrev synthese : Grant
synthese =
    ("program", read_only)
    ∷ ("room", read_only)
    ∷ ("talk", read_only)
    ∷ ("overlay", read_only)
    ∷ ("vod", read_only)
    ∷ ("message", read_only)
    ∷ ("push", "subscribe" ∷ [])
    ∷ []

abbrev urgence : Grant
urgence =
    ("program", read_only)
    ∷ ("room", read_only)
    ∷ ("message", "read" ∷ "send" ∷ "urgent" ∷ [])
    ∷ ("push", "subscribe" ∷ [])
    ∷ []

unfoldable pub access_roles : List (String × Grant)
access_roles =
    ("admin", admin)
    ∷ ("programmeTech", programme_tech)
    ∷ ("moderation", moderation)
    ∷ ("regieMobile", regie_mobile)
    ∷ ("synthese", synthese)
    ∷ ("urgence", urgence)
    ∷ ("readonly", reads)
    ∷ []

-- `actions.includes(action)`
abbrev pub includes : List String → String → Bool
includes [] action = false
includes (a ∷ actions) action = str_eq a action || includes actions action

abbrev pub grant_allows : Grant → Permission → Bool
grant_allows grant p = elim (get p.resource grant) [
  | none ↦ false
  | some actions ↦ includes actions p.action
]

abbrev pub role_allows : String → Permission → Bool
role_allows role p = elim (get role access_roles) [
  | none ↦ false
  | some grant ↦ grant_allows grant p
]

unfoldable pub roles_allow : List String → Permission → Bool
unfolding access_roles
roles_allow [] p = false
roles_allow (role ∷ roles) p = role_allows role p || roles_allow roles p

abbrev pub same_permission : Permission → Permission → Bool
same_permission a b = str_eq a.resource b.resource && str_eq a.action b.action

abbrev pub has_permission : Permission → List Permission → Bool
has_permission p [] = false
has_permission p (q ∷ granted) = same_permission q p || has_permission p granted

-- `granted.add(…)`
abbrev pub add : Permission → List Permission → List Permission
add p granted = if has_permission p granted then granted else granted ++ (p ∷ [])

unfoldable pub add_actions : String → List String → List Permission → List Permission
add_actions resource [] granted = granted
add_actions resource (action ∷ actions) granted =
    add_actions resource actions (add (record { resource = resource; action = action }) granted)

unfoldable pub add_grant : Grant → List Permission → List Permission
unfolding add_actions
add_grant [] granted = granted
add_grant ((resource, actions) ∷ grant) granted =
    add_grant grant (add_actions resource actions granted)

unfoldable pub add_roles : List String → List Permission → List Permission
unfolding add_grant access_roles
add_roles [] granted = granted
add_roles (role ∷ roles) granted = elim (get role access_roles) [
  | none ↦ add_roles roles granted
  | some grant ↦ add_roles roles (add_grant grant granted)
]

abbrev text_of : Permission → String
text_of p = String.◌++◌ p.resource (String.◌++◌ ":" p.action)

abbrev pub sorts_before : Permission → Permission → Bool
sorts_before a b = elim (String.compare (text_of a) (text_of b)) [ Ordering.gt ↦ false | _ ↦ true ]

unfoldable pub insert_permission : Permission → List Permission → List Permission
insert_permission p [] = p ∷ []
insert_permission p (q ∷ granted) =
    let later = insert_permission p granted in
    if sorts_before p q then p ∷ q ∷ granted else q ∷ later

unfoldable pub sort_permissions : List Permission → List Permission
unfolding insert_permission
sort_permissions [] = []
sort_permissions (p ∷ granted) = insert_permission p (sort_permissions granted)

unfoldable pub permissions_of : List String → List Permission
unfolding add_roles sort_permissions
permissions_of roles = sort_permissions (add_roles roles [])
