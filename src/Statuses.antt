-- ===== src/Statuses.antt =====
-- The states of an asset's upload, scan and processing: internal/assets/types.go.
use asset_api.Base.{Bool, true, false}

pub data UploadStatus : Type 0 where
  created completed failed : UploadStatus

abbrev pub upload_is : UploadStatus → UploadStatus → Bool
upload_is created created = true
upload_is completed completed = true
upload_is failed failed = true
upload_is _ _ = false

pub data ScanStatus : Type 0 where
  scan_pending scan_clean scan_infected scan_failed : ScanStatus

abbrev pub scan_is : ScanStatus → ScanStatus → Bool
scan_is scan_pending scan_pending = true
scan_is scan_clean scan_clean = true
scan_is scan_infected scan_infected = true
scan_is scan_failed scan_failed = true
scan_is _ _ = false

pub data ProcessingStatus : Type 0 where
  processing_pending processing_ready not_required processing_failed : ProcessingStatus

abbrev pub processing_over : ProcessingStatus → Bool
processing_over processing_pending = false
processing_over _ = true

abbrev pub processing_refused : ProcessingStatus → Bool
processing_refused processing_failed = true
processing_refused _ = false
