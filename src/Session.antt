-- ===== src/Session.antt =====
-- session.js: the rights of the user, as the router sent them; and the questions of uci.js about them.
use xluci.Prelude.{String, Bool, false, Option, none, some, List}
use xluci.Prelude.Dict.{Dict, lookup2}
use xluci.Uci.Access.{contains}

-- `aclCache`: the functions that are granted, by scope and object.
abbrev pub AclCache : Type 0
AclCache = Dict (Dict (List String))

-- callAccessCallback(acls)
unfoldable pub call_access_callback : AclCache → AclCache → AclCache
call_access_callback old acls = acls

-- hasACL(scope, object)
unfoldable pub acl_entry : AclCache → String → String → Option (List String)
acl_entry acls scope object = lookup2 scope object acls

-- hasACL(scope, object, func)
unfoldable pub has_acl : AclCache → String → String → String → Bool
unfolding acl_entry
has_acl acls scope object func = elim (acl_entry acls scope object) [
  | none ↦ false
  | some l ↦ contains l func
]

-- L.uci.readable(conf), L.uci.writable(conf)
unfoldable pub readable : AclCache → String → Bool
readable acls conf = has_acl acls "uci" conf "read"

unfoldable pub writable : AclCache → String → Bool
writable acls conf = has_acl acls "uci" conf "write"
