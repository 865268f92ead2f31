-- ===== src/Notifications/Content.antt =====
-- `NotificationData` of notification-service/src/domain/entities, and the texts that
-- `_getNotificationContent` of application/services/NotificationService.ts makes of it.
use Prim.Native.String.{◌++◌ as append}
use skill_stew_api.Prelude.{ℕ, Option, none, some, String, if◌then◌else◌}
use text.Mathlib.Text.{◌==◌ as str_eq}

pub data NotificationType : Type 0 where
  connection_request connection_accepted connection_rejected : NotificationType
  expert_application_submitted expert_application_approved expert_application_rejected :
      NotificationType

pub data NotificationData : Type 0 where
  connection_request_data :
      (sender_id : String) (sender_username : Option String) (connection_id : String)
      → NotificationData
  connection_accepted_data :
      (accepter_id : String) (accepter_username : Option String) (connection_id : String)
      → NotificationData
  connection_rejected_data :
      (rejecter_id : String) (rejecter_username : Option String) (connection_id : String)
      → NotificationData
  expert_application_submitted_data :
      (application_id : String) (expert_id : String) (expert_username : Option String)
      (submitted_at : ℕ)
      → NotificationData
  expert_application_approved_data : (approved_at : ℕ) → NotificationData
  expert_application_rejected_data :
      (rejected_at : ℕ) (rejection_reason : Option String) → NotificationData

pub record NotificationContent : Type 0 where
  pub title : String
  pub message : String

-- `name ?? other`
abbrev pub name_or : Option String → String → String
name_or none d = d
name_or (some s) d = s

-- The reason, if it is given and not empty.
abbrev pub rejection_message : Option String → String
rejection_message none = "Your expert application was rejected."
rejection_message (some s) =
    if str_eq s ""
    then "Your expert application was rejected."
    else append "Your expert application was rejected. Reason: " s

-- `_getNotificationContent`
unfoldable pub notification_content : NotificationData → NotificationContent
notification_content (connection_request_data id username connection) = record {
  title = "New Connection Request";
  message = append (name_or username (append "User" id)) " wants to connect with you";
}
notification_content (connection_accepted_data id username connection) = record {
  title = "Connection Accepted";
  message = append (name_or username (append "User" id)) " accepted your connection request";
}
notification_content (connection_rejected_data id username connection) = record {
  title = "Connection Declined";
  message = append (name_or username (append "User" id)) " declined your connection request";
}
notification_content (expert_application_approved_data t) = record {
  title = "Expert Application Approved";
  message =
      "Your expert application has been approved. You can now continue as an expert on Skill Stew.";
}
notification_content (expert_application_submitted_data application expert username t) = record {
  title = "New Expert Application";
  message = append (name_or username "An expert applicant") " submitted a new expert application.";
}
notification_content (expert_application_rejected_data t reason) = record {
  title = "Expert Application Rejected";
  message = rejection_message reason;
}
