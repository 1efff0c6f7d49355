-- ===== src/Tests.antt =====
-- Runs of the program on concrete inputs, which show that the hypotheses of the theorems hold there.
mod Fixtures
mod Texts
mod LaneRuns
mod PolicyRuns
mod RiskRuns
mod AccessRuns
mod AuthRuns
mod GraphRuns
mod SettingsRuns
mod ScanRuns
mod McpRuns
mod EvidenceRuns
mod ReportRuns
mod IngestRuns
mod MutationRuns
mod PipelineRuns
