-- ===== src/Tests.antt =====
-- The model at concrete inputs: runs of the definitions, and uses of the theorems.
mod Journals
mod JournalLocks
mod JournalStores
mod RwMixLimits
mod OffsetGens
mod Mixes
mod Histograms
mod RateLimits
mod PathStores
mod S3Uploads
mod BlockContents
mod FileModes
mod WorkerPhases
mod DirModes
