-- ===== src/Provisions/Lifecycle.antt =====
-- The life cycle that the provisions promise: the statuses and the steps between them. The operations of
-- app/api/finance/provisions/provision/provision_service.py are shown to keep to it in Provisions/Refine.
pub mod Effect
pub mod Moves
pub mod Edits
pub mod Requests
pub mod Steps
use proyecto.Common.{◌≢◌, String}
use proyecto.Provisions.Model.{
  pending_detail_status, ready_for_review_status, approved_status, rejected_for_edit_status,
  rejected_final_status, cancelled_status,
}

-- Approved, rejected for good or cancelled: nothing follows.
abbrev pub IsOpen : String → Type 0
IsOpen code = (code ≢ approved_status) × (code ≢ rejected_final_status) × (code ≢ cancelled_status)

pub data Step : String → String → Type 0 where
  submit : Step pending_detail_status ready_for_review_status
  submit_again : Step rejected_for_edit_status ready_for_review_status
  approve : Step ready_for_review_status approved_status
  reject_for_edit : Step ready_for_review_status rejected_for_edit_status
  reject_final : Step ready_for_review_status rejected_final_status
  cancel : (code : String) → IsOpen code → Step code cancelled_status

-- Any number of steps
pub data Reaches : String → String → Type 0 where
  stay : (code : String) → Reaches code code
  further : (first next last : String) → Step first next → Reaches next last → Reaches first last
