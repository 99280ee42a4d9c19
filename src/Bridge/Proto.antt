-- ===== src/Bridge/Proto.antt =====
-- The protobuf message as the bridge reads it: the fields behind the getters that main.go and
-- menu.go call. An optional sub-message is `Option`, an unset string is empty.
use whatsmcp.Base.{ℕ, Bool, false, Option, none, List, [], Text}

pub record MediaPart : Type 0 where
  pub caption : Text
  pub url : Text
  pub direct_path : Text
  pub media_key : List ℕ
  pub file_sha256 : List ℕ
  pub file_enc_sha256 : List ℕ
  pub file_length : ℕ

pub record DocumentPart : Type 0 where
  pub media : MediaPart
  pub title : Text
  pub file_name : Text

-- The coordinates as `%f` prints them.
pub record Location : Type 0 where
  pub latitude : Text
  pub longitude : Text
  pub name : Text
  pub address : Text

pub record LiveLocation : Type 0 where
  pub latitude : Text
  pub longitude : Text
  pub caption : Text

pub record Contact : Type 0 where
  pub display_name : Text
  pub vcard : Text

pub record ContactsArray : Type 0 where
  pub display_name : Text
  pub contacts : List Contact

pub record Row : Type 0 where
  pub row_id : Text
  pub title : Text
  pub description : Text

pub record Section : Type 0 where
  pub title : Text
  pub rows : List Row

pub record ListMessage : Type 0 where
  pub title : Text
  pub description : Text
  pub sections : List Section

pub record Button : Type 0 where
  pub button_id : Text
  pub display_text : Text

pub record ButtonsMessage : Type 0 where
  pub content_text : Text
  pub buttons : List Button

-- The `oneof` of a hydrated button.
pub data HydratedButton : Type 0 where
  quick_reply : Text → Text → HydratedButton
  url_button : Text → Text → HydratedButton
  call_button : Text → Text → HydratedButton
  unset_button : HydratedButton

pub record HydratedTemplate : Type 0 where
  pub content_text : Text
  pub buttons : List HydratedButton

pub record NativeButton : Type 0 where
  pub name : Text
  pub params_json : Text

pub record InteractiveMessage : Type 0 where
  pub header_title : Text
  pub body_text : Text
  pub buttons : List NativeButton

pub record EventMessage : Type 0 where
  pub name : Text
  pub is_canceled : Bool
  pub start_time : ℕ
  pub end_time : ℕ
  pub location_name : Text
  pub description : Text

pub record Album : Type 0 where
  pub image_count : ℕ
  pub video_count : ℕ

pub record Order : Type 0 where
  pub title : Text
  pub item_count : ℕ

-- `key` is the ID of the message key, if there is a key.
pub record Reaction : Type 0 where
  pub text : Text
  pub key : Option Text

pub record ProtocolMessage : Type 0 where
  pub is_revoke : Bool
  pub key : Option Text

-- The fields that hold no message.
pub record Body : Type 0 where
  pub conversation : Text
  pub extended_text : Option Text
  pub image : Option MediaPart
  pub video : Option MediaPart
  pub audio : Option MediaPart
  pub document : Option DocumentPart
  pub sticker : Option MediaPart
  pub ptv : Option MediaPart
  pub location : Option Location
  pub live_location : Option LiveLocation
  pub contact : Option Contact
  pub contacts_array : Option ContactsArray
  pub poll : Option Text
  pub poll_v3 : Option Text
  pub buttons_response : Option Text
  pub list_response : Option Text
  pub template_reply : Option Text
  pub list : Option ListMessage
  pub buttons : Option ButtonsMessage
  pub template : Option (Option HydratedTemplate)
  pub interactive : Option InteractiveMessage
  pub event : Option EventMessage
  pub event_invite : Bool
  pub album : Option Album
  pub order : Option Order
  pub pin : Bool
  pub reaction : Option Reaction
  pub group_invite : Option Text
  pub poll_update : Bool
  pub protocol : Option ProtocolMessage

mutual
  -- The six containers that wrap a message, the `ContextInfo` of the six types that carry one
  -- (extended text, image, video, audio, document, sticker), and the rest.
  pub data Message : Type 0 where
    message :
        (ephemeral view_once view_once_v2 view_once_v2_extension document_with_caption
          edited : Inner)
        → (extended image video audio document sticker : Context) → Body
        → Message

  -- `*waProto.Message`, which may be nil.
  pub data Inner : Type 0 where
    nil : Inner
    inner : Message → Inner

  -- `*waProto.ContextInfo`: the ID of the quoted message, and that message.
  pub data Context : Type 0 where
    no_context : Context
    context : Text → Inner → Context

abbrev pub body : Message → Body
body (message _ _ _ _ _ _ _ _ _ _ _ _ b) = b

abbrev pub empty_body : Body
empty_body = record {
  conversation = [];
  extended_text = none;
  image = none;
  video = none;
  audio = none;
  document = none;
  sticker = none;
  ptv = none;
  location = none;
  live_location = none;
  contact = none;
  contacts_array = none;
  poll = none;
  poll_v3 = none;
  buttons_response = none;
  list_response = none;
  template_reply = none;
  list = none;
  buttons = none;
  template = none;
  interactive = none;
  event = none;
  event_invite = false;
  album = none;
  order = none;
  pin = false;
  reaction = none;
  group_invite = none;
  poll_update = false;
  protocol = none;
}

-- A message with no container and no quotation.
abbrev pub plain : Body → Message
plain b =
    message nil nil nil nil nil nil no_context no_context no_context no_context no_context
      no_context b
