-- ===== src/Bridge/Unwrap.antt =====
-- `unwrapMessage` of whatsapp-bridge/main.go: the message inside its containers.
pub mod Laws
use whatsmcp.Base.{ℕ, zero, suc}
use whatsmcp.Bridge.Proto.{Message, message, Inner, nil, inner}

-- The first of two pointers that is not nil.
abbrev pub or_inner : Inner → Inner → Inner
or_inner nil b = b
or_inner (inner m) b = inner m

-- The `switch`: the message of the first container that holds one, nil in the default case.
unfoldable pub next : Message → Inner
next (message ephemeral view_once v2 v2_extension with_caption edited _ _ _ _ _ _ _) =
    or_inner ephemeral
      (or_inner view_once (or_inner v2 (or_inner v2_extension (or_inner with_caption edited))))

-- The loop, on the rounds that are left.
unfoldable pub unwrap_rounds : ℕ → Message → Message
unwrap_rounds zero m = m
unwrap_rounds (suc k) m = elim (next m) [ nil ↦ m | inner m' ↦ unwrap_rounds k m' ]

unfoldable pub unwrap_message : Inner → Inner
unfolding unwrap_rounds next
unwrap_message nil = nil
unwrap_message (inner m) = inner (unwrap_rounds 5 m)
