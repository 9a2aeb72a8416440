-- ===== src/Samples.antt =====
-- A store in memory on which the hypotheses about the `Store` interface hold, and the runs of
-- the theorems at concrete inputs.
mod Backend
mod Numbers
mod KeyRuns
mod StringRuns
mod ListRuns
mod MachineRuns
mod CursorRuns
mod Members
mod HashRuns
mod SetRuns
mod GlobRuns
mod MsetRuns
